-- ===== src/Threads/Starting.antt =====
-- The constructor of a thread against the thread that it starts: what is done when it returns.
use collabor_ative_schedule.Base.{
  ℕ, zero, suc, ◌+◌, ◌<◌, ◌≡◌, ◌↔◌, refl, ap, subst, ◌∙◌, ◌⊎◌, inl, inr, Bool, true, false, none,
  some, ok, arith, Str,
}
use collabor_ative_schedule.Callback.{Callback, empty}
use collabor_ative_schedule.Threads.{
  Thread, new_thread, or_unknown, identify, take_function, wait, notify,
}

-- Where the started thread is in `run`.
pub data Stage : Type 0 where
  created identified took notified : Stage
  called : Callback → Stage

-- `made` says whether the constructor has returned; `taken` is the function in `run`.
pub record System : Type 0 where
  pub thread : Thread
  pub made : Bool
  pub stage : Stage
  pub taken : Callback

abbrev pub begun : ℕ → ℕ → System → System
begun tid a s = record s { thread = (identify tid a s.thread).0; stage = identified }

abbrev pub swapped : System → System
swapped s = let r = take_function s.thread in record s { thread = r.0; stage = took; taken = r.1 }

-- The constructor's wait ends, or the started thread goes on: up to `notify`, by it, and by the
-- call of its function.
pub data Step (tid a : ℕ) (s : System) : System → Type 0 where
  passes :
      (n : ℕ)
      → s.made ≡ false
      → wait false s.thread.permits ≡ some (ok n)
      → Step tid a s (record s { thread = record s.thread { permits = n }; made = true })
  begins : s.stage ≡ created → Step tid a s (begun tid a s)
  takes : s.stage ≡ identified → Step tid a s (swapped s)
  notifies :
      (n : ℕ)
      → s.stage ≡ took
      → notify false s.thread.permits ≡ ok n
      → Step tid a s (record s { thread = record s.thread { permits = n }; stage = notified })
  calls : s.stage ≡ notified → Step tid a s (record s { stage = called s.taken })

abbrev pub started : Thread → System
started t = record { thread = t; made = false; stage = created; taken = empty }

pub data Reach (tid a : ℕ) (t : Thread) : System → Type 0 where
  here : Reach tid a t (started t)
  next : {s s' : System} → Reach tid a t s → Step tid a s s' → Reach tid a t s'

abbrev bit : Bool → ℕ
bit true = 1
bit false = 0

abbrev notices : Stage → ℕ
notices created = 0
notices identified = 0
notices took = 0
notices notified = 1
notices (called cb) = 1

-- What each stage has done.
abbrev Done : ℕ → Callback → Stage → Thread → Callback → Type 0
Done tid cb created t taken = (t.id ≡ none) × (t.cb ≡ cb)
Done tid cb identified t taken = (t.id ≡ some tid) × (t.cb ≡ cb)
Done tid cb took t taken = (t.id ≡ some tid) × (t.cb ≡ empty) × (taken ≡ cb)
Done tid cb notified t taken = (t.id ≡ some tid) × (t.cb ≡ empty) × (taken ≡ cb)
Done tid cb (called f) t taken = (t.id ≡ some tid) × (t.cb ≡ empty) × (f ≡ cb)

record Counts (tid : ℕ) (t : Thread) (s : System) : Type 0 where
  balance : s.thread.permits + bit s.made ≡ t.permits + notices s.stage
  done : Done tid t.cb s.stage s.thread s.taken

wait-suc : (p n : ℕ) → wait false p ≡ some (ok n) → p ≡ suc n
unfolding wait
wait-suc zero n h = cc
wait-suc (suc p) n h = let q : p ≡ n = cc in ap suc q

at_stage :
    {tid : ℕ} {t : Thread} {s : System} {g : Stage}
    → s.stage ≡ g
    → Counts tid t s
    → Done tid t.cb g s.thread s.taken
at_stage {tid} {t} {s} e c = subst (λ g. Done tid t.cb g s.thread s.taken) e c.done

same-Done :
    (tid : ℕ) (cb : Callback) (g : Stage) (t t' : Thread) (taken : Callback)
    → t'.id ≡ t.id
    → t'.cb ≡ t.cb
    → Done tid cb g t taken
    → Done tid cb g t' taken
same-Done tid cb created t t' taken p q d = (p ∙ d.0, q ∙ d.1)
same-Done tid cb identified t t' taken p q d = (p ∙ d.0, q ∙ d.1)
same-Done tid cb took t t' taken p q d = (p ∙ d.0, q ∙ d.1, d.2)
same-Done tid cb notified t t' taken p q d = (p ∙ d.0, q ∙ d.1, d.2)
same-Done tid cb (called f) t t' taken p q d = (p ∙ d.0, q ∙ d.1, d.2)

Step-Counts :
    {tid a : ℕ} {t : Thread} {s s' : System} → Counts tid t s → Step tid a s s' → Counts tid t s'
unfolding identify take_function notify
Step-Counts {tid} {t = t} {s = s} c (passes n m e) = record {
  balance = omega (arith, wait-suc s.thread.permits n e, ap bit m, c.balance);
  done = same-Done tid t.cb s.stage s.thread _ s.taken refl refl c.done;
}
Step-Counts {s = s} c (begins e) = record {
  balance = omega (arith, ap notices e, c.balance);
  done = (refl, (at_stage e c).1);
}
Step-Counts {s = s} c (takes e) = record {
  balance = omega (arith, ap notices e, c.balance);
  done = ((at_stage e c).0, refl, (at_stage e c).1);
}
Step-Counts {s = s} c (notifies n e f) =
    let p : s.thread.permits + 1 ≡ n = cc in
    record { balance = omega (arith, p, ap notices e, c.balance); done = at_stage e c }
Step-Counts {s = s} c (calls e) = record {
  balance = omega (arith, ap notices e, c.balance);
  done = at_stage e c;
}

Reach-Counts :
    {tid a : ℕ} {t : Thread} {s : System} → t.id ≡ none → Reach tid a t s → Counts tid t s
Reach-Counts e here = record { balance = omega arith; done = (e, refl) }
Reach-Counts e (next r s) = Step-Counts (Reach-Counts e r) s

-- The object that the constructor makes, before it waits.
abbrev pub fresh : ℕ → Callback → Str → ℕ → Thread
fresh h cb name count = record {
  id = none;
  handle = some h;
  cb = cb;
  name = or_unknown name;
  permits = count;
}

-- The constructor has returned while the thread has not begun.
abbrev pub ReturnsEarly : ℕ → ℕ → Thread → Type 0
ReturnsEarly tid a t = (s : System) × Reach tid a t s × (s.made ≡ true) × (s.thread.id ≡ none)

told :
    (tid : ℕ) (cb : Callback) (g : Stage) (t : Thread) (taken : Callback)
    → Done tid cb g t taken
    → ((t.id ≡ none) × (t.cb ≡ cb) × (notices g ≡ 0))
      ⊎ ((t.id ≡ some tid) × ((t.cb ≡ cb) ⊎ (t.cb ≡ empty)))
told tid cb created t taken d = inl (d.0, d.1, refl)
told tid cb identified t taken d = inr (d.0, inl d.1)
told tid cb took t taken d = inr (d.0, inr d.1)
told tid cb notified t taken d = inr (d.0, inr d.1)
told tid cb (called f) t taken d = inr (d.0, inr d.1)

returns_early : (tid a : ℕ) (t : Thread) → t.id ≡ none → 0 < t.permits → ReturnsEarly tid a t
unfolding wait
returns_early tid a t e l = go t.permits refl l
  where
    go : (n : ℕ) → t.permits ≡ n → 0 < n → ReturnsEarly tid a t
    go zero p l = elim l [ ]
    go (suc n) p l =
        let s = started t in
        (
          record s { thread = record t { permits = n }; made = true },
          next here (passes n refl (ap (wait false) p)),
          refl,
          e,
        )

-- When `pthread_create` succeeds, and the started thread and the wait of the constructor go on in
-- any order: the constructor can return before the thread's id is known exactly when the semaphore
-- counts from more than 0; and in every state that can be reached the id is unknown and the
-- function still in the object, or the id is the thread's and the function still in the object or
-- taken out; and once `run` calls a function, it is the one that the constructor was given, and the
-- object has none.
pub ReturnsEarly-iff :
    (tid a h : ℕ) (cb : Callback) (name : Str) (count : ℕ)
    → (new_thread (some h) cb name count ≡ ok (fresh h cb name count))
      × (ReturnsEarly tid a (fresh h cb name count) ↔ (0 < count))
      × ((s : System)
          → Reach tid a (fresh h cb name count) s
          → (((s.thread.id ≡ none) × (s.thread.cb ≡ cb))
              ⊎ ((s.thread.id ≡ some tid) × ((s.thread.cb ≡ cb) ⊎ (s.thread.cb ≡ empty))))
            × ((f : Callback) → s.stage ≡ called f → (f ≡ cb) × (s.thread.cb ≡ empty)))
unfolding new_thread
ReturnsEarly-iff tid a h cb name count =
    let t = fresh h cb name count in
    (
      refl,
      (early, returns_early tid a t refl),
      λ s r.
          let c = Reach-Counts refl r in
          (
            elim (told tid cb s.stage s.thread s.taken c.done) [
              | inl p ↦ inl (p.0, p.1)
              | inr p ↦ inr p
            ],
            λ f e. ((at_stage e c).2, (at_stage e c).1),
          ),
    )
  where
    early : ReturnsEarly tid a (fresh h cb name count) → 0 < count
    early (s, r, m, e) =
        let c = Reach-Counts refl r in
        elim (told tid cb s.stage s.thread s.taken c.done) [
          | inl p ↦ omega (arith, c.balance, ap bit m, p.2)
          | inr p ↦ absurd cc
        ]
