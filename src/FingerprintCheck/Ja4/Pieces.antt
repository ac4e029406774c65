-- ===== src/FingerprintCheck/Ja4/Pieces.antt =====
-- examples/fingerprint_check.rs: a raw fingerprint is taken apart into the parts that it is made of.
use mathlib.Core.Bool.{false≢true}
use grindr_rs.Prelude.{
  ℕ, Bool, true, false, List, [], ◌∷◌, ◌++◌, Text, any, ◌==◌, ◌≡◌, refl, ap, ◌∙◌, arith, All,
  any-append,
}
use package.grindr_rs.Texts.{split, join}
use package.grindr_rs.FingerprintCheck.Ja4.{underscore, comma}

-- A byte stands in a text.
abbrev pub has : ℕ → Text → Bool
has c s = any (λ b. b == c) s

split-none : (c : ℕ) (s : Text) → has c s ≡ false → split s c ≡ s ∷ []
unfolding split
split-none c [] without = refl
split-none c (b ∷ s) without =
    let here : (b == c) ≡ false = ground arith in rw (here, split-none c s (ground arith)) refl

split-append :
    (c : ℕ) (s rest : Text) → has c s ≡ false → split (s ++ (c ∷ rest)) c ≡ s ∷ split rest c
unfolding split
split-append c [] rest without = let here : (c == c) ≡ true = ground arith in rw here refl
split-append c (b ∷ s) rest without =
    let here : (b == c) ≡ false = ground arith in
    rw (here, split-append c s rest (ground arith)) refl

split-join :
    (c : ℕ) (e : Text) (es : List Text)
    → has c e ≡ false
    → All (λ t. has c t ≡ false) es
    → split (join (e ∷ es) (c ∷ [])) c ≡ e ∷ es
unfolding join
split-join c e [] without (tt) = split-none c e without
split-join c e (f ∷ es) without (here, later) =
    split-append c e (join (f ∷ es) (c ∷ [])) without
    ∙ ap (λ ts. e ∷ ts) (split-join c f es here later)

has-join :
    (c d : ℕ) (es : List Text)
    → (d == c) ≡ false
    → All (λ t. has c t ≡ false) es
    → has c (join es (d ∷ [])) ≡ false
unfolding join
has-join c d [] differ without = refl
has-join c d (e ∷ []) differ (here, later) = here
has-join c d (e ∷ f ∷ es) differ (here, later) =
    any-append (λ b. b == c) e (d ∷ join (f ∷ es) (d ∷ []))
    ∙ rw (here, differ) (has-join c d (f ∷ es) differ later)

-- The raw form of a fingerprint.
abbrev pub raw : Text → Text → List Text → Text → Text
raw a ciphers exts sigalgs =
    a
    ++ (underscore ∷ (ciphers ++ (underscore ∷ (join exts (comma ∷ []) ++ (underscore ∷ sigalgs)))))

abbrev pub IsPlain : Text → Type 0
IsPlain t = (has underscore t ≡ false) × (has comma t ≡ false)

underscore_apart : (exts : List Text) → All IsPlain exts → All (λ t. has underscore t ≡ false) exts
underscore_apart [] plain = tt
underscore_apart (e ∷ es) ((without, _), plain) = (without, underscore_apart es plain)

comma_apart : (exts : List Text) → All IsPlain exts → All (λ t. has comma t ≡ false) exts
comma_apart [] plain = tt
comma_apart (e ∷ es) ((_, without), plain) = (without, comma_apart es plain)

-- The parts of a raw form are those that it is made of.
pub split-raw :
    (a ciphers : Text) (exts : List Text) (sigalgs : Text)
    → has underscore a ≡ false
    → has underscore ciphers ≡ false
    → has underscore sigalgs ≡ false
    → All IsPlain exts
    → split (raw a ciphers exts sigalgs) underscore
      ≡ a ∷ ciphers ∷ join exts (comma ∷ []) ∷ sigalgs ∷ []
split-raw a ciphers exts sigalgs in_a in_ciphers in_sigalgs plain =
    let in_exts = has-join underscore comma exts refl (underscore_apart exts plain) in
    split-append underscore a _ in_a
    ∙ ap (λ ts. a ∷ ts)
        (split-append underscore ciphers _ in_ciphers
          ∙ ap (λ ts. ciphers ∷ ts)
              (split-append underscore (join exts (comma ∷ [])) sigalgs in_exts
                ∙ ap (λ ts. join exts (comma ∷ []) ∷ ts)
                    (split-none underscore sigalgs in_sigalgs)))

split_exts :
    (e : Text) (es : List Text)
    → All IsPlain (e ∷ es)
    → split (join (e ∷ es) (comma ∷ [])) comma ≡ e ∷ es
split_exts e es (here, plain) = split-join comma e es here.1 (comma_apart es plain)

abbrev pub is_nonempty : List Text → Bool
is_nonempty [] = false
is_nonempty (e ∷ es) = true

pub split_nonempty :
    (exts : List Text)
    → is_nonempty exts ≡ true
    → All IsPlain exts
    → split (join exts (comma ∷ [])) comma ≡ exts
split_nonempty [] nonempty plain = absurd (false≢true nonempty)
split_nonempty (e ∷ es) nonempty plain = split_exts e es plain
