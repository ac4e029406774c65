-- ===== src/FingerprintCheck/Ja4/Order.antt =====
-- examples/fingerprint_check.rs: a row of texts in order, to which one is added and which is sorted again.
use grindr_rs.Prelude.{true, false, List, [], ◌∷◌, ◌++◌, Text, ◌≡◌, refl, ap, All}
use package.grindr_rs.Texts.{text_le, insert, sort}

-- Texts in their order.
abbrev pub Ordered : List Text → Type 0
Ordered [] = Unit
Ordered (e ∷ []) = Unit
Ordered (e ∷ f ∷ es) = (text_le e f ≡ true) × Ordered (f ∷ es)

insert_first : (e : Text) (es : List Text) → Ordered (e ∷ es) → insert text_le e es ≡ e ∷ es
unfolding insert
insert_first e [] ordered = refl
insert_first e (f ∷ es) (le, ordered) = rw le refl

Ordered-tail : (e : Text) (es : List Text) → Ordered (e ∷ es) → Ordered es
Ordered-tail e [] ordered = tt
Ordered-tail e (f ∷ es) (le, ordered) = ordered

abbrev pub LargerThan : Text → Text → Type 0
LargerThan e f = text_le f e ≡ false

sort_before :
    (after : List Text) (e : Text)
    → Ordered after
    → All (LargerThan e) after
    → sort text_le (after ++ (e ∷ [])) ≡ e ∷ after
unfolding sort insert
sort_before [] e ordered larger = refl
sort_before (f ∷ after) e ordered (l, larger) =
    rw (sort_before after e (Ordered-tail f after ordered) larger, l)
      (ap (λ fs. e ∷ fs) (insert_first f after ordered))

pub sort_between :
    (before after : List Text) (e : Text)
    → Ordered (before ++ (e ∷ after))
    → All (LargerThan e) after
    → sort text_le ((before ++ after) ++ (e ∷ [])) ≡ before ++ (e ∷ after)
unfolding sort
sort_between [] after e ordered larger = sort_before after e (Ordered-tail e after ordered) larger
sort_between (b ∷ before) after e ordered larger =
    rw (sort_between before after e (Ordered-tail b (before ++ (e ∷ after)) ordered) larger)
      (insert_first b (before ++ (e ∷ after)) ordered)
