-- ===== src/FingerprintCheck/Ja4/Padding.antt =====
-- examples/fingerprint_check.rs `recompute_ja4_spec`: the service leaves the padding out of the raw form.
use mathlib.Core.Bool.{false≢true}
use grindr_rs.Prelude.{
  eq_of_text_eq, Bool, ◌||◌, true, false, List, [], ◌∷◌, ◌++◌, Text, any, ◌≡◌, refl, ap, sym, ◌∙◌,
  inl, inr, Bool-cases, All, any-append, codes, text_eq, text_eq_refl,
}
use package.grindr_rs.Texts.{join, text_le}
use package.grindr_rs.FingerprintCheck.Ja4.{
  sha256_truncated, underscore, comma, padding, fix_extensions, ja4_of_parts, recompute_ja4_spec,
}
use grindr_rs.FingerprintCheck.Ja4.Order.{sort_between, LargerThan, Ordered}
use grindr_rs.FingerprintCheck.Ja4.Pieces.{
  split_nonempty, split-raw, raw, has, is_nonempty, IsPlain,
}

or_true : (b : Bool) → (b || true) ≡ true
or_true false = refl
or_true true = refl

-- Extensions in their order, of which the padding is one, and only one.
abbrev pub PaddedOnce : List Text → List Text → Type 0
PaddedOnce before after =
    Ordered (before ++ (padding ∷ after))
    × (any (text_eq padding) before ≡ false)
    × All (LargerThan padding) after

larger-differs :
    (after : List Text) → All (LargerThan padding) after → any (text_eq padding) after ≡ false
unfolding text_le codes
larger-differs [] larger = refl
larger-differs (f ∷ after) (l, larger) = elim (Bool-cases (text_eq padding f)) [
  | inl same ↦
      absurd (false≢true (sym l ∙ ap (λ t. text_le t padding) (sym (eq_of_text_eq padding f same))))
  | inr differ ↦ rw differ (larger-differs after larger)
]

-- The padding is put back where it was, and is left where it is.
pub fix_extensions_without :
    (before after : List Text)
    → PaddedOnce before after
    → fix_extensions (before ++ after) ≡ before ++ (padding ∷ after)
unfolding fix_extensions
fix_extensions_without before after (ordered, none_before, larger) =
    rw (any-append (text_eq padding) before after, none_before, larger-differs after larger)
      (sort_between before after padding ordered larger)

pub fix_extensions_with :
    (before after : List Text)
    → fix_extensions (before ++ (padding ∷ after)) ≡ before ++ (padding ∷ after)
unfolding fix_extensions
fix_extensions_with before after =
    let here = text_eq_refl padding in
    let there : any (text_eq padding) (before ++ (padding ∷ after)) ≡ true =
      any-append (text_eq padding) before (padding ∷ after)
      ∙ rw here (or_true (any (text_eq padding) before)) in
    rw there refl

All-insert :
    (before after : List Text) (e : Text)
    → All IsPlain (before ++ after)
    → IsPlain e
    → All IsPlain (before ++ (e ∷ after))
All-insert [] after e plain plain_e = (plain_e, plain)
All-insert (b ∷ before) after e (here, plain) plain_e =
    (here, All-insert before after e plain plain_e)

nonempty-insert : (before after : List Text) (e : Text) → is_nonempty (before ++ (e ∷ after)) ≡ true
nonempty-insert [] after e = refl
nonempty-insert (b ∷ before) after e = refl

module _ (sha256 : Text → Text) (a ciphers sigalgs : Text) where
  abbrev pub AreApart : Type 0
  AreApart =
      (has underscore a ≡ false)
      × (has underscore ciphers ≡ false)
      × (has underscore sigalgs ≡ false)

  -- The fingerprint over a row of extensions.
  unfoldable pub ja4_over : List Text → Text
  ja4_over exts =
      a
      ++ (underscore
          ∷ (sha256_truncated sha256 ciphers
              ++ (underscore
                  ∷ sha256_truncated sha256 (join exts (comma ∷ []) ++ (underscore ∷ sigalgs)))))

  recompute-raw :
      (exts : List Text)
      → AreApart
      → All IsPlain exts
      → is_nonempty exts ≡ true
      → recompute_ja4_spec sha256 (raw a ciphers exts sigalgs) ≡ ja4_over (fix_extensions exts)
  unfolding recompute_ja4_spec ja4_of_parts ja4_over codes
  recompute-raw exts (in_a, in_ciphers, in_sigalgs) plain nonempty =
      ap (ja4_of_parts sha256 (raw a ciphers exts sigalgs))
        (split-raw a ciphers exts sigalgs in_a in_ciphers in_sigalgs plain)
      ∙ ap (λ es. ja4_over (fix_extensions es)) (split_nonempty exts nonempty plain)

  -- The fingerprint is computed over all the extensions, the padding among them, from a raw form without the
  -- padding as from one with it, if the extensions are in order, the padding among them once, and others too,
  -- and no part has an underscore in it and no extension a comma.
  pub recompute-whole :
      (before after : List Text)
      → AreApart
      → All IsPlain (before ++ after)
      → is_nonempty (before ++ after) ≡ true
      → PaddedOnce before after
      → (recompute_ja4_spec sha256 (raw a ciphers (before ++ after) sigalgs)
          ≡ ja4_over (before ++ (padding ∷ after)))
        × (recompute_ja4_spec sha256 (raw a ciphers (before ++ (padding ∷ after)) sigalgs)
            ≡ ja4_over (before ++ (padding ∷ after)))
  unfolding codes
  recompute-whole before after parts plain nonempty once = (
    recompute-raw (before ++ after) parts plain nonempty
        ∙ ap ja4_over (fix_extensions_without before after once),
    recompute-raw (before ++ (padding ∷ after)) parts
          (All-insert before after padding plain (refl, refl))
          (nonempty-insert before after padding)
        ∙ ap ja4_over (fix_extensions_with before after),
  )
