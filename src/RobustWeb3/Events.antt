-- ===== src/RobustWeb3/Events.antt =====
-- The events of a receipt, as `callContract` of utils/robust.js gathers them: by their names, and
-- those without a name by their numbers.
use rainbow_bridge_cli.Base.{
  ℕ, String, Option, none, some, List, [], ◌∷◌, ◌++◌, ◌===◌, if◌then◌else◌, ◌≡◌, refl, sym, ap,
  append_assoc, append-nil, arith, eq_iff, true, false, Bool-cases, inl, inr,
}
use rainbow_bridge_cli.Base.Dict
use rainbow_bridge_cli.Base.Io.{Outcome, ok}
use rainbow_bridge_cli.Base.Sync.{◌>>=◌}
use rainbow_bridge_cli.RobustWeb3.{Log, Receipt}
use rainbow_bridge_cli.Base.Dict.{Dict}

-- A decoded event. Its name is "" if the log belongs to no event of the ABI.
pub record Event : Type 0 where
  pub name : String
  pub log_index : ℕ
  pub transaction_hash : String

-- What stands under a name: one event, or an array.
pub data Entry : Type 0 where
  single : Event → Entry
  many : List Event → Entry

-- `receipt.events`: the named ones, and those under 0, 1, …
pub record Events : Type 0 where
  pub named : Dict Entry
  pub numbered : List Event

abbrev pub no_events : Events
no_events = record { named = []; numbered = [] }

-- if (receipt.events[ev.event]) …
unfoldable pub add_entry : Option Entry → Event → Entry
add_entry none ev = single ev
add_entry (some (single e)) ev = many (e ∷ ev ∷ [])
add_entry (some (many es)) ev = many (es ++ ev ∷ [])

unfoldable pub add_event : Event → Events → Events
add_event ev r =
    if ev.name === "" then record r { numbered = r.numbered ++ ev ∷ [] } else record r {
      named = Dict.insert ev.name (add_entry (Dict.lookup ev.name r.named) ev) r.named;
    }

-- events.forEach
unfoldable pub gather : List Event → Events → Events
gather [] r = r
gather (ev ∷ evs) r = gather evs (add_event ev r)

-- The receipt that is returned: its logs are replaced by events, if they are an array.
pub record Mined : Type 0 where
  pub receipt : Receipt
  pub events : Option Events

-- _.map(receipt.logs, …)
unfoldable pub decode_all : (Log → Outcome Event) → List Log → Outcome (List Event)
decode_all decode [] = ok []
decode_all decode (l ∷ ls) = decode l >>= λ ev. decode_all decode ls >>= λ evs. ok (ev ∷ evs)

abbrev pub mined_case : (Log → Outcome Event) → Receipt → Option (List Log) → Outcome Mined
mined_case decode r none = ok (record { receipt = r; events = none })
mined_case decode r (some ls) = decode_all decode ls >>= λ evs.
    ok (record { receipt = record r { logs = none }; events = some (gather evs no_events) })

-- The events of a name, in order.
abbrev pub events_of : String → List Event → List Event
events_of n [] = []
events_of n (ev ∷ evs) = if ev.name === n then ev ∷ events_of n evs else events_of n evs

-- What is kept of a list of events of one name.
abbrev pub entry_of : List Event → Option Entry
entry_of [] = none
entry_of (e ∷ []) = some (single e)
entry_of (e ∷ f ∷ es) = some (many (e ∷ f ∷ es))

add_entry-entry_of :
    (es : List Event) (ev : Event) → some (add_entry (entry_of es) ev) ≡ entry_of (es ++ ev ∷ [])
unfolding add_entry
add_entry-entry_of [] ev = refl
add_entry-entry_of (e ∷ []) ev = refl
add_entry-entry_of (e ∷ f ∷ es) ev = refl

events_of-append :
    (n : String) (es fs : List Event) → events_of n (es ++ fs) ≡ events_of n es ++ events_of n fs
events_of-append n [] fs = refl
events_of-append n (e ∷ es) fs = elim (Bool-cases (e.name === n)) [
  | inl p ↦ rw p (ap (λ x. e ∷ x) (events_of-append n es fs))
  | inr p ↦ rw p (events_of-append n es fs)
]

-- The object holds, under every name, the events of that name that have been seen, and under the
-- numbers those without a name.
pub record Gathered (seen : List Event) (r : Events) : Type 0 where
  pub by_name :
      (n : String) → (n === "") ≡ false → Dict.lookup n r.named ≡ entry_of (events_of n seen)
  pub unnamed : r.numbered ≡ events_of "" seen

-- An event more, under its name.
entry_of-append :
    (n : String) (seen : List Event) (ev : Event)
    → entry_of (events_of n (seen ++ ev ∷ [])) ≡ (
        if ev.name === n
        then some (add_entry (entry_of (events_of n seen)) ev)
        else entry_of (events_of n seen))
entry_of-append n seen ev = elim (Bool-cases (ev.name === n)) [
  | inl p ↦ rw events_of-append (rw p (sym (add_entry-entry_of (events_of n seen) ev)))
  | inr p ↦ rw events_of-append (rw p (ap entry_of (append-nil (events_of n seen))))
]

unnamed-append :
    (seen : List Event) (ev : Event)
    → events_of "" (seen ++ ev ∷ [])
      ≡ (if ev.name === "" then events_of "" seen ++ ev ∷ [] else events_of "" seen)
unnamed-append seen ev = elim (Bool-cases (ev.name === "")) [
  | inl p ↦ rw events_of-append (rw p)
  | inr p ↦ rw events_of-append (rw p (append-nil (events_of "" seen)))
]

lookup-add_event :
    (n : String) (ev : Event) (r : Events)
    → Dict.lookup n (add_event ev r).named ≡ (
        if ev.name === ""
        then Dict.lookup n r.named
        else if ev.name === n
        then some (add_entry (Dict.lookup ev.name r.named) ev)
        else Dict.lookup n r.named)
unfolding add_event
lookup-add_event n ev r = elim (Bool-cases (ev.name === "")) [
  | inl p ↦ simp p
  | inr p ↦
      simp p (Dict.lookup-insert ev.name n (add_entry (Dict.lookup ev.name r.named) ev) r.named)
]

same_name : (a b : String) → (a === b) ≡ true → a ≡ b
same_name a b h = (eq_iff a b).0 h

add_event-Gathered :
    (ev : Event) (seen : List Event) (r : Events)
    → Gathered seen r
    → Gathered (seen ++ ev ∷ []) (add_event ev r)
add_event-Gathered ev seen r g = record { by_name = by_name; unnamed = unnamed }
  where
    by_name :
        (n : String)
        → (n === "") ≡ false
        → Dict.lookup n (add_event ev r).named ≡ entry_of (events_of n (seen ++ ev ∷ []))
    by_name n h = elim (Bool-cases (ev.name === n)) [
      | inl p ↦
          let e : ev.name ≡ n = same_name ev.name n p in
          rw (lookup-add_event n ev r)
            (rw (entry_of-append n seen ev) (simp (e, h) (simp (g.by_name n h))))
      | inr p ↦
          rw (lookup-add_event n ev r)
            (rw (entry_of-append n seen ev) (ground (arith, p, g.by_name n h)))
    ]

    unnamed : (add_event ev r).numbered ≡ events_of "" (seen ++ ev ∷ [])
    unnamed = rw (unnamed-append seen ev) (
        rw (← g.unnamed) (elim (Bool-cases (ev.name === "")) [
          | inl p ↦ unfold add_event in simp p
          | inr p ↦ unfold add_event in simp p
        ]))

gather-Gathered :
    (evs seen : List Event) (r : Events) → Gathered seen r → Gathered (seen ++ evs) (gather evs r)
unfolding gather
gather-Gathered [] seen r g = rw append-nil g
gather-Gathered (ev ∷ evs) seen r g =
    rw (append_assoc seen (ev ∷ []) evs) at
      (gather-Gathered evs (seen ++ ev ∷ []) (add_event ev r) (add_event-Gathered ev seen r g))

-- `receipt.events` holds each event of the receipt once and in order: under its name, alone or in an
-- array with the others of that name, or under a number if it has no name; and nothing else.
pub gather_lem : (evs : List Event) → Gathered evs (gather evs no_events)
gather_lem evs =
    gather-Gathered evs [] no_events
      (record { by_name = λ n h. unfold Dict.lookup in refl; unnamed = refl })
