-- ===== src/Realmd/RealmList/Refresh.antt =====
-- The refresh of the list: when it happens and what it keeps.
use cmangos_tbc.Base.{
  ℕ, ◌+◌, ◌∙◌, ◌<◌, ◌≤◌, ◌≡◌, ◌≢◌, ◌⊎◌, refl, Bool, true, false, Option, none, some, List, [], ◌∷◌,
  arith, All, Bool-cases, inl, inr, ltb, ◌==◌,
}
use cmangos_tbc.Base.Int.{ℤ}
use cmangos_tbc.Shared.Database.{Row}
use cmangos_tbc.Realmd.RealmList.{
  Realms, RealmList, new, update_realms, initialize, update_if_needed,
}
use cmangos_tbc.Realmd.RealmList.Order.{IsSorted}
use cmangos_tbc.Realmd.RealmList.Load.{IsRealm, load_rows-IsValid}

-- The names are in order, each once, and each realm is well formed.
abbrev pub IsValid : RealmList → Type 0
IsValid list = IsSorted list.realms × All (λ e. IsRealm e.1) list.realms

update_realms-IsValid :
    (now : ℕ) (answer : Option (List Row)) (init : Bool) (old : Realms) (list : RealmList)
    → IsValid list
    → IsValid (update_realms now answer init old list)
unfolding update_realms
update_realms-IsValid now none init old list h = h
update_realms-IsValid now (some rows) init old list h =
    load_rows-IsValid list.stale_timeout init now old rows list.realms h.0 h.1

pub data Poll : Type 0 where
  poll : (now now' : ℕ) (answer : Option (List Row)) → Poll

-- The server's use of the list: one start, then any number of requests.
pub run_polls : List Poll → RealmList → RealmList
run_polls [] list = list
run_polls (poll now now' answer ∷ polls) list =
    run_polls polls (update_if_needed now now' answer list)

update_if_needed-IsValid :
    (now now' : ℕ) (answer : Option (List Row)) (list : RealmList)
    → IsValid list
    → IsValid (update_if_needed now now' answer list)
unfolding update_if_needed
update_if_needed-IsValid now now' answer list h =
    let emptied : RealmList = record list {
      realms = [];
      next_update_time = now + list.update_interval;
    } in
    let refreshed = update_realms-IsValid now' answer false list.realms emptied (tt, tt) in
    elim (Bool-cases (list.update_interval == 0)) [
      | inl off ↦ rw off h
      | inr on ↦ rw on (elim (Bool-cases (ltb now list.next_update_time)) [
        | inl early ↦ rw early h
        | inr due ↦ rw due refreshed
      ])
    ]

run_polls-IsValid' :
    (polls : List Poll) (list : RealmList) → IsValid list → IsValid (run_polls polls list)
unfolding run_polls
run_polls-IsValid' [] list h = h
run_polls-IsValid' (poll now now' answer ∷ polls) list h =
    run_polls-IsValid' polls _ (update_if_needed-IsValid now now' answer list h)

-- From the start of the server on, whatever the database answers or fails to answer at each poll,
-- the names stay in order, each once, and every realm has an id, only valid flags, a security level
-- of at most 3 and its builds in order.
pub run_polls-IsValid :
    (now : ℕ) (answer : Option (List Row)) (interval : ℕ) (timeout : ℤ) (polls : List Poll)
    → IsValid (run_polls polls (initialize now answer interval timeout new))
unfolding initialize
run_polls-IsValid now answer interval timeout polls =
    run_polls-IsValid' polls _ (update_realms-IsValid now answer true [] _ (tt, tt))

update_realms_schedule :
    (now : ℕ) (answer : Option (List Row)) (init : Bool) (old : Realms) (list : RealmList)
    → let list' = update_realms now answer init old list in
      (list'.update_interval ≡ list.update_interval)
      × (list'.next_update_time ≡ list.next_update_time)
unfolding update_realms
update_realms_schedule now none init old list = (refl, refl)
update_realms_schedule now (some rows) init old list = (refl, refl)

abbrev pub IsBefore : (time : ℕ) → Poll → Type 0
IsBefore time (poll now now' answer) = now < time

-- The polls before the interval has passed, or all of them if it is 0.
abbrev pub NotDue : (interval time : ℕ) → List Poll → Type 0
NotDue interval time polls = (interval ≡ 0) ⊎ All (IsBefore time) polls

not_due :
    (polls : List Poll) (list : RealmList)
    → NotDue list.update_interval list.next_update_time polls
    → run_polls polls list ≡ list
unfolding run_polls update_if_needed
not_due [] list h = refl
not_due (poll now now' answer ∷ polls) list (inl off) =
    let same : update_if_needed now now' answer list ≡ list = ground arith in
    rw same (not_due polls list (inl off))
not_due (poll now now' answer ∷ polls) list (inr early) =
    let soon : now < list.next_update_time = early.0 in
    let same : update_if_needed now now' answer list ≡ list = ground arith in
    rw same (not_due polls list (inr early.1))

rescheduled :
    (now now' : ℕ) (answer : Option (List Row)) (list : RealmList)
    → list.next_update_time ≤ now
    → let list' = update_if_needed now now' answer list in
      (list'.update_interval ≡ list.update_interval)
      × (((list.update_interval ≡ 0) × (list' ≡ list))
          ⊎ ((list.update_interval ≢ 0) × (list'.next_update_time ≡ now + list.update_interval)))
unfolding update_if_needed
rescheduled now now' answer list due =
    let emptied : RealmList = record list {
      realms = [];
      next_update_time = now + list.update_interval;
    } in
    ground (arith, update_realms_schedule now' answer false list.realms emptied)

-- After a poll at `now` that was due, any number of polls before `now` plus the interval leave the list
-- exactly as that poll made it, whatever the database would answer. With an interval of 0 that poll
-- itself leaves the list as it was, and so does any number of polls after it, at any time.
pub update_if_needed_throttled :
    (now now' : ℕ) (answer : Option (List Row)) (polls : List Poll) (list : RealmList)
    → list.next_update_time ≤ now
    → NotDue list.update_interval (now + list.update_interval) polls
    → let list' = update_if_needed now now' answer list in
      (run_polls polls list' ≡ list') × ((list.update_interval ≢ 0) ⊎ (list' ≡ list))
update_if_needed_throttled now now' answer polls list due h =
    let list' = update_if_needed now now' answer list in
    let (interval, cases) = rescheduled now now' answer list due in
    elim cases [
      | inl (off, kept) ↦ (not_due polls list' (inl (interval ∙ off)), inr kept)
      | inr (on, next) ↦ (not_due polls list' (rw (interval, next) h), inl on)
    ]
