-- ===== src/Media/Liveness/Unnamed.antt =====
-- src/media/liveness.rs: the connections that rule out a retirement since nobody named their host.
use grindr_rs.Prelude.{
  ℕ, suc, ◌+◌, ◌-◌, ◌≤◌, ◌<◌, false, List, [], ◌∷◌, ◌++◌, Text, ◌≡◌, refl, arith, if◌then◌else◌,
  Bool-cases, inl, inr,
}
use grindr_rs.Media.Hosts.{is_cdn_host}
use package.grindr_rs.Media.Liveness.{
  State, new, Stall, unnamed, stamp, connected, dialed, progressed, retire, may_retire, is_pooled,
}
use package.grindr_rs.Media.Liveness.Layers.{resolve, call}

-- What happens to the state: a connection is counted, a name is looked up, and the tasks report.
pub data Event : Type 0 where
  calls : Event
  resolves : Text → Event
  progresses : Text → ℕ → ℕ → Event
  retires : Stall → ℕ → Event

abbrev pub happen : Event → State → State
happen calls s = call s
happen (resolves host) s = resolve host s
happen (progresses host generation now) s = progressed s host generation now
happen (retires stall now) s = (retire s stall now).0

abbrev pub happen_all : List Event → State → State
happen_all [] s = s
happen_all (e ∷ es) s = happen_all es (happen e s)

-- A lookup is that of a connection that was counted before, and each connection looks up one name at most;
-- `due` of them have looked up none so far.
abbrev pub InTurn : List Event → ℕ → Type 0
InTurn [] due = Unit
InTurn (calls ∷ es) due = InTurn es (suc due)
InTurn (resolves host ∷ es) due = (0 < due) × InTurn es (due - 1)
InTurn (progresses host generation now ∷ es) due = InTurn es due
InTurn (retires stall now ∷ es) due = InTurn es due

abbrev pub count_calls : List Event → ℕ
count_calls [] = 0
count_calls (calls ∷ es) = suc (count_calls es)
count_calls (e ∷ es) = count_calls es

-- How many hosts of the CDN were looked up.
abbrev pub count_named : List Event → ℕ
count_named [] = 0
count_named (resolves host ∷ es) = (if is_cdn_host host then 1 else 0) + count_named es
count_named (e ∷ es) = count_named es

-- So many connections at least have looked up no name.
abbrev Counted : ℕ → State → Type 0
Counted due s = s.named + due ≤ s.connections

-- The counts go up by those of an event, of which the lookups take from the connections that are due.
abbrev Adds : State → ℕ → ℕ → State → Type 0
Adds s connections named s' =
    (s'.connections ≡ s.connections + connections) × (s'.named ≡ s.named + named)

resolve-Adds :
    (host : Text) (s : State) → Adds s 0 (if is_cdn_host host then 1 else 0) (resolve host s)
unfolding resolve dialed
resolve-Adds host s = elim (Bool-cases (is_cdn_host host)) [
  | inl cdn ↦ rw cdn (omega arith, omega arith)
  | inr away ↦ rw away (omega arith, omega arith)
]

retire-Adds : (stall : Stall) (now : ℕ) (s : State) → Adds s 0 0 (retire s stall now).0
unfolding retire
retire-Adds stall now s = elim (Bool-cases (may_retire s stall now)) [
  | inl may ↦ rw may (omega arith, omega arith)
  | inr must_not ↦ rw must_not (omega arith, omega arith)
]

at_most_one : (host : Text) → (if is_cdn_host host then 1 else 0) ≤ 1
at_most_one host = elim (Bool-cases (is_cdn_host host)) [
  | inl cdn ↦ rw cdn (omega arith)
  | inr away ↦ rw away (omega arith)
]

-- After the events the names are at most the connections, and both have been counted on.
abbrev After : List Event → State → Type 0
After es s =
    ((happen_all es s).named ≤ (happen_all es s).connections)
    × Adds s (count_calls es) (count_named es) (happen_all es s)

happen_all-After :
    (es : List Event) (s : State) (due : ℕ) → Counted due s → InTurn es due → After es s
unfolding call connected progressed
happen_all-After [] s due h turns = (omega arith, (omega arith, omega arith))
happen_all-After (calls ∷ es) s due h turns =
    let (counted, (all, named)) = happen_all-After es (call s) (suc due) (omega arith) turns in
    (counted, (omega (arith, all), omega (arith, named)))
happen_all-After (resolves host ∷ es) s due h (some_due, turns) =
    let (same, more) = resolve-Adds host s in
    let one = at_most_one host in
    let (counted, (all, named)) =
      happen_all-After es (resolve host s) (due - 1) (omega (arith, same, more, one)) turns in
    (counted, (omega (arith, all, same), omega (arith, named, more)))
happen_all-After (progresses host generation now ∷ es) s due h turns =
    let (counted, (all, named)) =
      happen_all-After es (progressed s host generation now) due (omega arith) turns in
    (counted, (omega (arith, all), omega (arith, named)))
happen_all-After (retires stall now ∷ es) s due h turns =
    let (same, kept) = retire-Adds stall now s in
    let (counted, (all, named)) =
      happen_all-After es (retire s stall now).0 due (omega (arith, same, kept)) turns in
    (counted, (omega (arith, all, same), omega (arith, named, kept)))

not_pooled :
    (s : State) (stall : Stall) (now : ℕ)
    → stall.stamp.unnamed < unnamed s
    → retire s stall now ≡ (s, false)
unfolding retire may_retire is_pooled
not_pooled s stall now h = ground arith

count_calls-append : (es fs : List Event) → count_calls (es ++ fs) ≡ count_calls es + count_calls fs
count_calls-append [] fs = omega arith
count_calls-append (calls ∷ es) fs = omega (arith, count_calls-append es fs)
count_calls-append (resolves host ∷ es) fs = count_calls-append es fs
count_calls-append (progresses host generation now ∷ es) fs = count_calls-append es fs
count_calls-append (retires stall now ∷ es) fs = count_calls-append es fs

count_named-append : (es fs : List Event) → count_named (es ++ fs) ≡ count_named es + count_named fs
count_named-append [] fs = omega arith
count_named-append (calls ∷ es) fs = count_named-append es fs
count_named-append (resolves host ∷ es) fs = omega (arith, count_named-append es fs)
count_named-append (progresses host generation now ∷ es) fs = count_named-append es fs
count_named-append (retires stall now ∷ es) fs = count_named-append es fs

happen_all-append :
    (es fs : List Event) (s : State) → happen_all (es ++ fs) s ≡ happen_all fs (happen_all es s)
happen_all-append [] fs s = refl
happen_all-append (e ∷ es) fs s = happen_all-append es fs (happen e s)

InTurn-front : (es fs : List Event) (due : ℕ) → InTurn (es ++ fs) due → InTurn es due
InTurn-front [] fs due turns = tt
InTurn-front (calls ∷ es) fs due turns = InTurn-front es fs (suc due) turns
InTurn-front (resolves host ∷ es) fs due (some_due, turns) =
    (some_due, InTurn-front es fs (due - 1) turns)
InTurn-front (progresses host generation now ∷ es) fs due turns = InTurn-front es fs due turns
InTurn-front (retires stall now ∷ es) fs due turns = InTurn-front es fs due turns

-- A request does not retire the connection, and nothing changes, if since it began more connections were
-- counted than hosts of the CDN were looked up, whatever happened to a new state before and since; a lookup
-- is that of a connection that was counted before it, one for each connection at most.
pub unnamed_since :
    (before since : List Event) (host : Text) (began now : ℕ) (stall : Stall)
    → InTurn (before ++ since) 0
    → stall.stamp ≡ stamp (happen_all before new) host began
    → count_named since < count_calls since
    → retire (happen_all since (happen_all before new)) stall now
      ≡ (happen_all since (happen_all before new), false)
unfolding new stamp unnamed
unnamed_since before since host began now stall turns same more =
    let (few, (calls_before, named_before)) =
      happen_all-After before new 0 (omega arith) (InTurn-front before since 0 turns) in
    let (few_after, (all_calls, all_named)) =
      happen_all-After (before ++ since) new 0 (omega arith) turns in
    let here = happen_all-append before since new in
    let c = count_calls-append before since in
    let n = count_named-append before since in
    let few_here = rw here at few_after in
    let calls_here = rw here at all_calls in
    let named_here = rw here at all_named in
    not_pooled (happen_all since (happen_all before new)) stall now (
      rw same (
        omega
          (arith, few, calls_before, named_before, few_here, calls_here, named_here, c, n, more)))
