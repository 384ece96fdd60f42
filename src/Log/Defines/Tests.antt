-- ===== src/Log/Defines/Tests.antt =====
-- A logger's definition with two appenders, in a document format that keeps its promises.
use mathlib.Core.List.{append-nil, append_assoc}
use collabor_ative_schedule.Base.{
  false, true, ◌≡◌, refl, sym, ap, ◌∙◌, List, [], ◌∷◌, ◌++◌, map, some, Str, length,
}
use collabor_ative_schedule.Config.Casts.Tests.{
  decoded, pair_up, nth, chunk, encode, flat, decoded-encode, pair_up-flat, nth_get_elem,
}
use collabor_ative_schedule.Log.Level.{unknow, info, error}
use collabor_ative_schedule.Log.Defines.{
  LogDefine, Keyed, puts, pushes, defines_from_string, defines_to_string,
}
use collabor_ative_schedule.Log.Defines.RoundTrip.{last_value, Laws}
use collabor_ative_schedule.Log.Defines.Whole.{forget, defines_round_trip}
use collabor_ative_schedule.Log.Defines.Dump.{LiveLogger, file_appender, stdout_appender}
use collabor_ative_schedule.Log.Defines.Dump.Restored.{restored}

abbrev pub doc : Keyed Str
doc = record {
  load = λ s. some s;
  emit = λ n. n;
  size = λ n. length (decoded n);
  at = λ n i. nth (decoded n) i;
  get = λ n k. last_value k (pair_up (decoded n));
  text = λ n. some n;
  scalar = λ s. s;
  null = [];
  push_back = λ n x. n ++ chunk x;
  put = λ n k v. (n ++ chunk k) ++ chunk v;
}

pushes-encode : (m : Str) (ns : List Str) → pushes doc m ns ≡ m ++ encode ns
pushes-encode m [] = sym (append-nil m)
pushes-encode m (n ∷ ns) = pushes-encode (m ++ chunk n) ns ∙ append_assoc m (chunk n) (encode ns)

puts-encode : (m : Str) (ps : List (Str × Str)) → puts doc m ps ≡ m ++ encode (flat ps)
puts-encode m [] = sym (append-nil m)
puts-encode m (p ∷ ps) =
    puts-encode ((m ++ chunk p.0) ++ chunk p.1) ps
    ∙ append_assoc (m ++ chunk p.0) (chunk p.1) (encode (flat ps))
    ∙ append_assoc m (chunk p.0) (chunk p.1 ++ encode (flat ps))

pub doc-Laws : Laws doc
doc-Laws = record {
  sequence_size =
      λ ns. ap (λ s. length (decoded s)) (pushes-encode [] ns) ∙ ap length (decoded-encode ns);
  sequence_at = λ ns i n e.
      ap (λ s. nth (decoded s) i) (pushes-encode [] ns)
      ∙ ap (λ ss. nth ss i) (decoded-encode ns)
      ∙ nth_get_elem ns i n e;
  sequence_read = λ ns. refl;
  map_read = λ ps. refl;
  map_get = λ ps k.
      ap (λ s. last_value k (pair_up (decoded s))) (puts-encode [] ps)
      ∙ ap (λ ss. last_value k (pair_up ss)) (decoded-encode (flat ps))
      ∙ ap (last_value k) (pair_up-flat ps);
  scalar_text = λ s. refl;
}

-- The logger "a", with a file "f" at ERROR and the console with the formatter "%m".
abbrev define : LogDefine
define = record {
  name = 97 ∷ [];
  level = info;
  formatter = [];
  appenders =
      record { type = 1; level = error; formatter = []; file = 102 ∷ [] }
      ∷ record { type = 2; level = unknow; formatter = 37 ∷ 109 ∷ []; file = [] }
      ∷ [];
}

loses :
    (forget define).appenders
    ≡ record { type = 1; level = unknow; formatter = []; file = 102 ∷ [] }
      ∷ record { type = 2; level = unknow; formatter = []; file = [] }
      ∷ []
loses = refl

defines_round_trip_example :
    defines_from_string doc (defines_to_string doc (define ∷ [])) ≡ some (map forget (define ∷ []))
defines_round_trip_example = defines_round_trip doc doc-Laws (define ∷ []) (tt, tt)

-- The logger "b" with the pattern "%m", writing to the file "f" and to the console.
abbrev live : LiveLogger
live = record {
  name = 98 ∷ [];
  level = error;
  formatter = some (37 ∷ 109 ∷ []);
  appenders =
      file_appender info false (some (37 ∷ 109 ∷ [])) (102 ∷ [])
      ∷ stdout_appender error true (some (37 ∷ 110 ∷ []))
      ∷ [];
}

loses_file :
    (restored live).appenders ≡ record { type = 2; level = unknow; formatter = []; file = [] } ∷ []
loses_file = refl
