-- ===== src/Grep/Matcher.antt =====
-- The matcher of user/grep.c decides whether a text contains a word of the pattern.
use mathlib.Core.Bool.{true≢false}
use mathlib.Core.List.{append_assoc}
use mathlib.Core.Path.{subst}
use learn_os.Base.{
  ℕ, Bool, true, false, [], ◌∷◌, ◌++◌, ◌==◌, ◌||◌, if◌then◌else◌, ◌≡◌, ◌⊎◌, ◌↔◌, inl, inr, refl,
  sym, ap, ◌∙◌, Bool-cases, ==→eq, eq→==,
}
use learn_os.Grep.{
  Text, dollar, star, dot, caret, is_end, matchstar, match_one, matchhere, match_loop, match,
}
use learn_os.Grep.Language.{
  Fits, once, many, All, InLanguage, Pattern, add, pattern_of, Begins, Contains, has_caret,
  behind_caret,
}

or_cases : (a b : Bool) → (a || b) ≡ true → (a ≡ true) ⊎ (b ≡ true)
or_cases true b h = inl refl
or_cases false b h = inr h

or_right : (a : Bool) → (a || true) ≡ true
or_right true = refl
or_right false = refl

-- What the test of `match_one` and that of `matchstar` say.
dot_or_char : (c x : ℕ) → (c == dot || c == x) ≡ true → Fits c x
dot_or_char c x h = elim (or_cases (c == dot) (c == x) h) [
  | inl a ↦ inl (==→eq c dot a)
  | inr b ↦ inr (==→eq c x b)
]

Fits-one : (c x : ℕ) → Fits c x → (c == dot || c == x) ≡ true
Fits-one c x (inl a) = rw (eq→== c dot a) refl
Fits-one c x (inr b) = rw (eq→== c x b) (or_right (c == dot))

char_or_dot : (c x : ℕ) → (x == c || c == dot) ≡ true → Fits c x
char_or_dot c x h = elim (or_cases (x == c) (c == dot) h) [
  | inl a ↦ inr (sym (==→eq x c a))
  | inr b ↦ inl (==→eq c dot b)
]

Fits-star : (c x : ℕ) → Fits c x → (x == c || c == dot) ≡ true
Fits-star c x (inl a) = rw (eq→== c dot a) (or_right (x == c))
Fits-star c x (inr b) = rw (eq→== x c (sym b)) refl

if_true : (b c : Bool) → (if b then true else c) ≡ true → (b ≡ true) ⊎ (c ≡ true)
if_true true c h = inl refl
if_true false c h = inr h

if_both : (b c : Bool) → (if b then c else false) ≡ true → (b ≡ true) × (c ≡ true)
if_both true c h = (refl, h)
if_both false c h = absurd (true≢false (sym h))

if_either : (b c : Bool) → c ≡ true → (if b then true else c) ≡ true
if_either true c h = refl
if_either false c h = h

matchstar_lem :
    (here : Text → Bool) (c : ℕ) (text : Text)
    → matchstar here c text ≡ true
    → (u v : Text) × (text ≡ u ++ v) × All (Fits c) u × (here v ≡ true)
unfolding matchstar
matchstar_lem here c [] h = ([], [], refl, tt, h)
matchstar_lem here c (x ∷ text) h = elim (if_true (here (x ∷ text)) _ h) [
  | inl a ↦ ([], x ∷ text, refl, tt, a)
  | inr b ↦
      let (f, g) = if_both (x == c || c == dot) (matchstar here c text) b in
      let (u, v, e, fs, k) = matchstar_lem here c text g in
      (x ∷ u, v, ap (λ t. x ∷ t) e, (char_or_dot c x f, fs), k)
]

matchstar_complete :
    (here : Text → Bool) (c : ℕ) (u v : Text)
    → All (Fits c) u
    → here v ≡ true
    → matchstar here c (u ++ v) ≡ true
unfolding matchstar
matchstar_complete here c [] [] fs h = h
matchstar_complete here c [] (x ∷ v) fs h = rw h refl
matchstar_complete here c (x ∷ u) v (f, fs) h =
    if_either (here (x ∷ u ++ v)) _ (rw (Fits-star c x f) (matchstar_complete here c u v fs h))

match_one_lem :
    (c : ℕ) (here : Text → Bool) (text : Text)
    → match_one c here text ≡ true
    → (x : ℕ) × (v : Text) × (text ≡ x ∷ v) × Fits c x × (here v ≡ true)
unfolding match_one
match_one_lem c here [] h = absurd (true≢false (sym h))
match_one_lem c here (x ∷ text) h =
    let (f, k) = if_both (c == dot || c == x) (here text) h in (x, text, refl, dot_or_char c x f, k)

-- `matchhere` decides `Begins`.
many-Begins :
    (c : ℕ) (p : Pattern) (u v : Text)
    → All (Fits c) u
    → Begins p v
    → Begins (add (many c) p) (u ++ v)
many-Begins c p u v fs b = record {
  word = u ++ b.word;
  rest = b.rest;
  parts = ap (λ t. u ++ t) b.parts ∙ sym (append_assoc u b.word b.rest);
  in_language = (u, b.word, refl, fs, b.in_language);
  ends = b.ends;
}

once-Begins :
    (c x : ℕ) (p : Pattern) (v : Text) → Fits c x → Begins p v → Begins (add (once c) p) (x ∷ v)
once-Begins c x p v f b = record {
  word = x ∷ b.word;
  rest = b.rest;
  parts = ap (λ t. x ∷ t) b.parts;
  in_language = (x, b.word, refl, f, b.in_language);
  ends = b.ends;
}

is_end-nil : (text : Text) → is_end text ≡ true → text ≡ []
is_end-nil [] h = refl
is_end-nil (x ∷ text) h = absurd (true≢false (sym h))

matchhere-Begins : (re text : Text) → matchhere re text ≡ true → Begins (pattern_of re) text
unfolding matchhere
matchhere-Begins [] text h = record {
  word = [];
  rest = text;
  parts = refl;
  in_language = refl;
  ends = λ e. absurd (true≢false (sym e));
}
matchhere-Begins (c ∷ []) text h = elim (Bool-cases (c == dollar)) [
  | inl a ↦
      let nil = is_end-nil text (sym (rw a refl) ∙ h) in
      rw a (record { word = []; rest = text; parts = refl; in_language = refl; ends = λ e. nil })
  | inr b ↦
      let (x, v, e, f, k) = match_one_lem c (matchhere []) text (sym (rw b refl) ∙ h) in
      rw (b, e) (once-Begins c x _ v f (matchhere-Begins [] v k))
]
matchhere-Begins (c ∷ d ∷ re) text h = elim (Bool-cases (d == star)) [
  | inl a ↦
      let (u, v, e, fs, k) = matchstar_lem (matchhere re) c text (sym (rw a refl) ∙ h) in
      rw (a, e) (many-Begins c _ u v fs (matchhere-Begins re v k))
  | inr b ↦
      let (x, v, e, f, k) = match_one_lem c (matchhere (d ∷ re)) text (sym (rw b refl) ∙ h) in
      rw (b, e) (once-Begins c x _ v f (matchhere-Begins (d ∷ re) v k))
]

match_one_complete :
    (c x : ℕ) (here : Text → Bool) (v : Text)
    → Fits c x
    → here v ≡ true
    → match_one c here (x ∷ v) ≡ true
unfolding match_one
match_one_complete c x here v f h = rw (Fits-one c x f) h

-- The other direction, on the parts of a text.
matchhere_complete :
    (re word rest : Text)
    → InLanguage (pattern_of re).items word
    → ((pattern_of re).at_end ≡ true → rest ≡ [])
    → matchhere re (word ++ rest) ≡ true
unfolding matchhere match_one
matchhere_complete [] word rest l e = refl
matchhere_complete (c ∷ []) word rest l e = elim (Bool-cases (c == dollar)) [
  | inl a ↦
      let nil : word ≡ [] = rw a at l in
      let end : rest ≡ [] = (rw a at e) refl in rw (a, nil, end) refl
  | inr b ↦
      let (x, v, w, f, k) = rw b at l in
      let n : v ≡ [] = k in rw (b, w) (match_one_complete c x (matchhere []) (v ++ rest) f refl)
]
matchhere_complete (c ∷ d ∷ re) word rest l e = elim (Bool-cases (d == star)) [
  | inl a ↦
      let (u, v, w, fs, k) = rw a at l in
      let h = matchhere_complete re v rest k (rw a at e) in
      rw (a, w, append_assoc u v rest) (matchstar_complete (matchhere re) c u (v ++ rest) fs h)
  | inr b ↦
      let (x, v, w, f, k) = rw b at l in
      let h = matchhere_complete (d ∷ re) v rest k (rw b at e) in
      rw (b, w) (match_one_complete c x (matchhere (d ∷ re)) (v ++ rest) f h)
]

-- The loop of `match` tries every place of the text.
match_loop_lem :
    (re text : Text)
    → match_loop re text ≡ true
    → (u v : Text) × (text ≡ u ++ v) × (matchhere re v ≡ true)
unfolding match_loop
match_loop_lem re [] h = ([], [], refl, h)
match_loop_lem re (x ∷ text) h = elim (if_true (matchhere re (x ∷ text)) _ h) [
  | inl a ↦ ([], x ∷ text, refl, a)
  | inr b ↦ let (u, v, e, k) = match_loop_lem re text b in (x ∷ u, v, ap (λ t. x ∷ t) e, k)
]

match_loop_complete : (re u v : Text) → matchhere re v ≡ true → match_loop re (u ++ v) ≡ true
unfolding match_loop
match_loop_complete re [] [] h = h
match_loop_complete re [] (x ∷ v) h = rw h refl
match_loop_complete re (x ∷ u) v h =
    if_either (matchhere re (x ∷ u ++ v)) _ (match_loop_complete re u v h)

loop-Contains : (re text : Text) → match_loop re text ≡ true → Contains (pattern_of re) false text
loop-Contains re text h =
    let (u, v, e, k) = match_loop_lem re text h in
    record {
      before = u;
      after = v;
      parts = e;
      begins = matchhere-Begins re v k;
      starts = λ z. absurd (true≢false (sym z));
    }

matchhere_of_Begins : (re text : Text) → Begins (pattern_of re) text → matchhere re text ≡ true
matchhere_of_Begins re text b =
    rw b.parts (matchhere_complete re b.word b.rest b.in_language b.ends)

loop_of_Contains :
    (re text : Text) → Contains (pattern_of re) false text → match_loop re text ≡ true
loop_of_Contains re text c =
    rw c.parts (match_loop_complete re c.before c.after (matchhere_of_Begins re c.after c.begins))

-- `match` returns 1 exactly if the text contains a word in the language of the pattern: single characters
-- with `.` for any, and repeated ones with `*`, in this order; with `^` in front the text begins with the
-- word, and with `$` at the end it ends with it.
pub match_lem :
    (re text : Text)
    → (match re text ≡ true) ↔ Contains (pattern_of (behind_caret re)) (has_caret re) text
unfolding match
match_lem [] text = (loop-Contains [] text, loop_of_Contains [] text)
match_lem (c ∷ re) text = elim (Bool-cases (c == caret)) [
  | inl a ↦ rw a (
    (λ h. record {
      before = [];
      after = text;
      parts = refl;
      begins = matchhere-Begins re text h;
      starts = λ _. refl;
    }),
    (λ k.
        let same : text ≡ k.after = k.parts ∙ rw (k.starts refl) refl in
        matchhere_of_Begins re text (subst (λ t. Begins (pattern_of re) t) (sym same) k.begins)),
  )
  | inr b ↦ rw b (loop-Contains (c ∷ re) text, loop_of_Contains (c ∷ re) text)
]
