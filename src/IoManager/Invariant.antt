-- ===== src/IoManager/Invariant.antt =====
-- What holds of an I/O manager between two calls: each context agrees with its mask and with the
-- kernel, and the pending counter counts the registered events.
use collabor_ative_schedule.Base.{
  ℕ, zero, suc, ◌+◌, ◌*◌, ◌^◌, ◌<◌, ◌≤◌, ◌≡◌, refl, sym, ap, ◌∙◌, ◌⊎◌, inl, inr, Bool, true, false,
  Option, none, some, ◌==◌, if◌then◌else◌, arith, Bool-cases, ==_iff, subst,
}
use collabor_ative_schedule.Callback.{empty, is_set}
use collabor_ative_schedule.Scheduler.{is_some}
use collabor_ative_schedule.IoManager.{
  Events, nonzero, EventContext, no_context, FdContext, new_context, IoManager,
}

-- A context that waits for its event: a scheduler, and a function or else a fiber.
abbrev pub IsArmed : EventContext → Type 0
IsArmed e =
    ((k : ℕ) × (e.scheduler ≡ some k))
    × (((is_set e.cb ≡ true) × (e.fiber ≡ none)) ⊎ ((e.cb ≡ empty) × (is_some e.fiber ≡ true)))

-- The context of one side against the bit of the mask.
pub record Agrees (bit : Bool) (e : EventContext) : Type 0 where
  pub off : bit ≡ false → e ≡ no_context
  pub on : bit ≡ true → IsArmed e

pub record Sides (c : FdContext) : Type 0 where
  pub read : Agrees c.events.reads c.read
  pub write : Agrees c.events.writes c.write

-- What the kernel is to watch for a mask.
abbrev pub watched : Events → Option Events
watched e = if nonzero e then some e else none

abbrev pub bit : Bool → ℕ
bit true = 1
bit false = 0

-- How many events of a context are registered.
abbrev pub weight : FdContext → ℕ
weight c = bit c.events.reads + bit c.events.writes

unfoldable pub sum_below : (ℕ → ℕ) → ℕ → ℕ
sum_below f zero = 0
sum_below f (suc n) = f n + sum_below f n

-- The events registered in the contexts below `n`.
abbrev pub registered : (ℕ → FdContext) → ℕ → ℕ
registered cs n = sum_below (λ i. weight (cs i)) n

pub record Inv (io : IoManager) : Type 0 where
  pub sides : (i : ℕ) → Sides (io.contexts i)
  pub kernel : (i : ℕ) → io.interest i ≡ watched (io.contexts i).events
  pub named : (i : ℕ) → (io.contexts i).fd ≡ i
  pub counted : io.pending ≡ registered io.contexts io.size
  pub beyond : (i : ℕ) → io.size ≤ i → io.contexts i ≡ new_context i
  pub grown : 32 ≤ io.size
  pub small : io.size < 2 ^ 32

pub sum_below-agree :
    (f g : ℕ → ℕ) (n : ℕ) → ((i : ℕ) → i < n → g i ≡ f i) → sum_below g n ≡ sum_below f n
unfolding sum_below
sum_below-agree f g zero h = refl
sum_below-agree f g (suc n) h =
    omega (arith, h n (omega arith), sum_below-agree f g n (λ i l. h i (omega arith)))

-- A change at one index changes the sum by as much.
pub sum_below-change :
    (f g : ℕ → ℕ) (i n : ℕ)
    → i < n
    → ((j : ℕ) → (j == i) ≡ false → g j ≡ f j)
    → sum_below g n + f i ≡ sum_below f n + g i
unfolding sum_below
sum_below-change f g i zero l h = absurd (omega arith)
sum_below-change f g i (suc n) l h = elim (Bool-cases (n == i)) [
  | inl e ↦
      let p = (==_iff n i).0 e in
      let rest = sum_below-agree f g n (λ j k. h j (ground (arith, p))) in
      omega (arith, rest, ap f p, ap g p)
  | inr e ↦ omega (arith, sum_below-change f g i n (ground (arith, e)) h, h n e)
]

pub le-sum_below : (f : ℕ → ℕ) (i n : ℕ) → i < n → f i ≤ sum_below f n
unfolding sum_below
le-sum_below f i zero l = absurd (omega arith)
le-sum_below f i (suc n) l = elim (Bool-cases (n == i)) [
  | inl e ↦ omega (arith, ap f ((==_iff n i).0 e))
  | inr e ↦ omega (arith, le-sum_below f i n (ground (arith, e)))
]

-- Indices that add nothing.
pub sum_below-grow :
    (f : ℕ → ℕ) (n k : ℕ)
    → ((i : ℕ) → n ≤ i → f i ≡ 0)
    → (m : ℕ) → m ≡ n + k
    → sum_below f m ≡ sum_below f n
unfolding sum_below
sum_below-grow f n zero h m e = ap (sum_below f) (let q : m ≡ n = omega arith in q)
sum_below-grow f n (suc k) h m e =
    let q : m ≡ suc (n + k) = omega arith in
    rw q (omega (arith, h (n + k) (omega arith), sum_below-grow f n k h (n + k) refl))

pub sum_below-zero : (f : ℕ → ℕ) (n : ℕ) → ((i : ℕ) → f i ≡ 0) → sum_below f n ≡ 0
unfolding sum_below
sum_below-zero f zero h = refl
sum_below-zero f (suc n) h = omega (arith, h n, sum_below-zero f n h)

sum_below-bound : (f : ℕ → ℕ) (b n : ℕ) → ((i : ℕ) → f i ≤ b) → sum_below f n ≤ n * b
unfolding sum_below
sum_below-bound f b zero h = omega arith
sum_below-bound f b (suc n) h = omega (arith, h n, sum_below-bound f b n h)

weight-le : (c : FdContext) → weight c ≤ 2
weight-le c = ground arith

-- Far from wrapping around.
pub pending-lt : (io : IoManager) → Inv io → io.pending < 2 ^ 34
pending-lt io inv = omega (
  arith,
  inv.counted,
  inv.small,
  sum_below-bound (λ i. weight (io.contexts i)) 2 io.size (λ i. weight-le (io.contexts i)),
)

-- A change of one context, with the kernel and the counter following.
pub record Changes (fd : ℕ) (io io' : IoManager) : Type 0 where
  pub inside : fd < io.size
  pub sides : Sides (io'.contexts fd)
  pub kernel : io'.interest fd ≡ watched (io'.contexts fd).events
  pub named : (io'.contexts fd).fd ≡ fd
  pub others : (i : ℕ) → (i == fd) ≡ false → io'.contexts i ≡ io.contexts i
  pub others_kernel : (i : ℕ) → (i == fd) ≡ false → io'.interest i ≡ io.interest i
  pub counted : io'.pending + weight (io.contexts fd) ≡ io.pending + weight (io'.contexts fd)
  pub size : io'.size ≡ io.size

at_or_other : (P : ℕ → Type 0) (fd : ℕ) → P fd → ((i : ℕ) → (i == fd) ≡ false → P i) → (i : ℕ) → P i
at_or_other P fd here other i = elim (Bool-cases (i == fd)) [
  | inl e ↦ subst P (sym ((==_iff i fd).0 e)) here
  | inr e ↦ other i e
]

pub Changes-Inv : (fd : ℕ) (io io' : IoManager) → Changes fd io io' → Inv io → Inv io'
Changes-Inv fd io io' c inv = record {
  sides = at_or_other _ fd c.sides (λ i n. subst Sides (sym (c.others i n)) (inv.sides i));
  kernel =
      at_or_other _ fd c.kernel (λ i n.
        c.others_kernel i n ∙ inv.kernel i ∙ ap (λ x. watched x.events) (sym (c.others i n)));
  named = at_or_other _ fd c.named (λ i n. ap (λ x. x.fd) (c.others i n) ∙ inv.named i);
  counted = rw c.size (
      omega (
        arith,
        c.counted,
        inv.counted,
        sum_below-change (λ i. weight (io.contexts i)) (λ i. weight (io'.contexts i)) fd io.size
            c.inside (λ j n. ap weight (c.others j n)),
      ));
  beyond =
      λ i l. c.others i (ground (arith, c.inside, c.size)) ∙ inv.beyond i (omega (arith, c.size));
  grown = omega (arith, c.size, inv.grown);
  small = omega (arith, c.size, inv.small);
}
