-- ===== src/Checkout/Table.antt =====
-- What a provider of ticket locks promises, with no dictionary: a table of leases, and the answers that
-- a call gets at it.
use swe_squad.Prelude.{
  ℕ, ◌+◌, String, ◌≡◌, Bool, true, false, not, Option, none, some, is_some, In, ◌↔◌, length, List,
  [], ◌∷◌, str_eq, ltb, if◌then◌else◌,
}
use swe_squad.Checkout.{
  minutes, Call, try_call, release_call, heartbeat_call, cleanup_call, force_call,
}
use swe_squad.Checkout.Cleanup.{AreDistinct}

-- Who holds a ticket, and until when.
pub record Lease : Type 0 where
  pub holder : String
  pub until : ℕ

abbrev pub Table : Type 0
Table = String → Option Lease

abbrev pub in_force : ℕ → Option Lease → Bool
in_force now none = false
in_force now (some l) = not (ltb l.until now)

abbrev pub is_holder : String → Option Lease → Bool
is_holder r none = false
is_holder r (some l) = str_eq l.holder r

abbrev pub set : String → Option Lease → Table → Table
set k l t j = if str_eq k j then l else t j

-- A call on the table: a free ticket is leased to who asks, a holder may give it back or extend
-- it, leases end with time, and any lease can be broken.
abbrev pub lease_step : Call → Table → Table
lease_step (try_call now check r k team m) t =
    if in_force check (t k)
    then t
    else set k (some (record { holder = r; until = now + minutes m })) t
lease_step (release_call now k r) t = if is_holder r (t k) then set k none t else t
lease_step (heartbeat_call now k r m) t =
    if is_holder r (t k) then set k (some (record { holder = r; until = now + minutes m })) t else t
lease_step (cleanup_call now) t = λ j. if in_force (now j) (t j) then t j else none
lease_step (force_call k) t = set k none t

abbrev pub has_lapsed : ℕ → Option Lease → Bool
has_lapsed now none = false
has_lapsed now (some l) = ltb l.until now

-- What a method returns.
pub data Answer : Type 0 where
  run : Option String → Answer
  flag : Bool → Answer
  count : ℕ → Answer

-- Every ticket whose lease has lapsed by the clock is there, once, and no other.
pub record AreLapsed (now : String → ℕ) (t : Table) (ks : List String) : Type 0 where
  pub distinct : AreDistinct ks
  pub lapsed : (k : String) → In k ks ↔ (has_lapsed (now k) (t k) ≡ true)

-- The answer that a call gets at a table: the id of the run that asks for a free ticket, whether
-- the caller holds the lease or there is one to break, and the number of the lapsed leases.
abbrev pub IsAnswer : Call → Table → Answer → Type 0
IsAnswer (try_call now check r k team m) t a =
    a ≡ run (if in_force check (t k) then none else some r)
IsAnswer (release_call now k r) t a = a ≡ flag (is_holder r (t k))
IsAnswer (heartbeat_call now k r m) t a = a ≡ flag (is_holder r (t k))
IsAnswer (cleanup_call now) t a = (ks : List String) × AreLapsed now t ks × (a ≡ count (length ks))
IsAnswer (force_call k) t a = a ≡ flag (is_some (t k))

abbrev pub lease_run : List Call → Table → Table
lease_run [] t = t
lease_run (c ∷ cs) t = lease_run cs (lease_step c t)

-- The answers to a sequence of calls, from a table on.
pub data AreAnswers : Table → List Call → List Answer → Type 0 where
  done : {t : Table} → AreAnswers t [] []
  next :
      {t : Table} {c : Call} {cs : List Call} {a : Answer} {rest : List Answer}
      → IsAnswer c t a
      → AreAnswers (lease_step c t) cs rest
      → AreAnswers t (c ∷ cs) (a ∷ rest)
