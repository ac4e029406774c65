-- ===== src/TestServer/Own.antt =====
-- src/testserver.rs: what one device sees of the queues and of the recordings that all tests share.
use grindr_rs.Prelude.{
  ℕ, Bool, true, false, ◌&&◌, List, [], ◌∷◌, ◌++◌, Text, text_eq, starts_with, take, length,
  if◌then◌else◌, ◌≡◌, refl, ap, ◌∙◌, arith, inl, inr, Bool-cases, eq_of_text_eq, All,
}
use package.grindr_rs.TestServer.State.{Recorded, Entry, filter, extend, is_for, pop}

module _ (id : Text) where
  abbrev pub mine : List Entry → List Entry
  mine [] = []
  mine (e ∷ es) = if text_eq e.device_id id then e ∷ mine es else mine es

-- All ids of the keys have one length.
abbrev pub AreLong : ℕ → List Entry → Type 0
AreLong n es = All (λ e. length e.device_id ≡ n) es

-- An id is the start of a text exactly if the text is cut to it at its length.
pub starts_with-take : (id info : Text) → starts_with id info ≡ text_eq id (take (length id) info)
unfolding starts_with text_eq
starts_with-take [] info = refl
starts_with-take (b ∷ bs) [] = refl
starts_with-take (b ∷ bs) (c ∷ info) = rw (starts_with-take bs info) refl

pub text_eq_sym : (s t : Text) → text_eq s t ≡ text_eq t s
unfolding text_eq
text_eq_sym [] [] = refl
text_eq_sym [] (c ∷ t) = refl
text_eq_sym (b ∷ s) [] = refl
text_eq_sym (b ∷ s) (c ∷ t) = ground (arith, text_eq_sym s t)

pub text_eq_at : (id a b : Text) → text_eq a b ≡ true → text_eq a id ≡ text_eq b id
text_eq_at id a b same = ap (λ t. text_eq t id) (eq_of_text_eq a b same)

module _ (n : ℕ) (info path : Text) where
  is_for_owner :
      (e : Entry)
      → length e.device_id ≡ n
      → is_for info path e ≡ (text_eq e.path path && text_eq e.device_id (take n info))
  unfolding is_for
  is_for_owner e long = rw (starts_with-take e.device_id info, long) refl

  is_for_same :
      (e : Entry) (id : Text)
      → length e.device_id ≡ n
      → is_for info path e ≡ true
      → text_eq e.device_id id ≡ text_eq (take n info) id
  is_for_same e id long for_it =
      text_eq_at id e.device_id (take n info) (let same = is_for_owner e long in ground arith)

  -- A request of another device leaves the queues of a device as they are.
  pub pop_others :
      (id : Text) (es : List Entry)
      → AreLong n es
      → text_eq (take n info) id ≡ false
      → mine id (pop info path es).0 ≡ mine id es
  unfolding pop
  pop_others id [] long other = refl
  pop_others id (e ∷ es) (l, long) other = elim (Bool-cases (is_for info path e)) [
    | inl hit ↦ rw (hit, is_for_same e id l hit, other) refl
    | inr miss ↦ rw (miss, pop_others id es long other) refl
  ]

  -- A request of the device takes of its own queues alone.
  pub pop_own :
      (id : Text) (es : List Entry)
      → AreLong n es
      → text_eq (take n info) id ≡ true
      → pop info path (mine id es) ≡ (mine id (pop info path es).0, (pop info path es).1)
  unfolding pop
  pop_own id [] long own = refl
  pop_own id (e ∷ es) (l, long) own = elim (Bool-cases (is_for info path e)) [
    | inl hit ↦ let here = is_for_same e id l hit ∙ own in rw (hit, here) (rw hit refl)
    | inr miss ↦ elim (Bool-cases (text_eq e.device_id id)) [
      | inl here ↦ rw (miss, here) (rw (miss, pop_own id es long own) refl)
      | inr away ↦ rw (miss, away) (pop_own id es long own)
    ]
  ]

  pub pop-AreLong : (es : List Entry) → AreLong n es → AreLong n (pop info path es).0
  unfolding pop
  pop-AreLong [] long = tt
  pop-AreLong (e ∷ es) (l, long) = elim (Bool-cases (is_for info path e)) [
    | inl hit ↦ rw hit (l, long)
    | inr miss ↦ rw miss (l, pop-AreLong es long)
  ]

abbrev same_key : Entry → Entry → Bool
same_key queued e = text_eq e.device_id queued.device_id && text_eq e.path queued.path

same_key_same :
    (queued e : Entry) (id : Text)
    → same_key queued e ≡ true
    → text_eq e.device_id id ≡ text_eq queued.device_id id
same_key_same queued e id same = text_eq_at id e.device_id queued.device_id (ground arith)

pub extend_others :
    (id : Text) (queued : Entry) (es : List Entry)
    → text_eq queued.device_id id ≡ false
    → mine id (extend queued es) ≡ mine id es
unfolding extend
extend_others id queued [] other = rw other refl
extend_others id queued (e ∷ es) other = elim (Bool-cases (same_key queued e)) [
  | inl hit ↦ rw (hit, same_key_same queued e id hit, other) refl
  | inr miss ↦ rw (miss, extend_others id queued es other) refl
]

pub extend_own :
    (id : Text) (queued : Entry) (es : List Entry)
    → text_eq queued.device_id id ≡ true
    → extend queued (mine id es) ≡ mine id (extend queued es)
unfolding extend
extend_own id queued [] own = rw own refl
extend_own id queued (e ∷ es) own = elim (Bool-cases (same_key queued e)) [
  | inl hit ↦ let here = same_key_same queued e id hit ∙ own in rw (hit, here) (rw hit refl)
  | inr miss ↦ elim (Bool-cases (text_eq e.device_id id)) [
    | inl here ↦ rw (miss, here) (rw (miss, extend_own id queued es own) refl)
    | inr away ↦ rw (miss, away) (extend_own id queued es own)
  ]
]

pub extend-AreLong :
    (n : ℕ) (queued : Entry) (es : List Entry)
    → length queued.device_id ≡ n
    → AreLong n es
    → AreLong n (extend queued es)
unfolding extend
extend-AreLong n queued [] q long = (q, tt)
extend-AreLong n queued (e ∷ es) q (l, long) = elim (Bool-cases (same_key queued e)) [
  | inl hit ↦ rw hit (l, long)
  | inr miss ↦ rw miss (l, extend-AreLong n queued es q long)
]

pub filter-append :
    (p : Recorded → Bool) (rs ss : List Recorded) → filter p (rs ++ ss) ≡ filter p rs ++ filter p ss
unfolding filter
filter-append p [] ss = refl
filter-append p (r ∷ rs) ss = elim (Bool-cases (p r)) [
  | inl hit ↦ rw (hit, filter-append p rs ss) refl
  | inr miss ↦ rw (miss, filter-append p rs ss) refl
]
