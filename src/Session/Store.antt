-- ===== src/Session/Store.antt =====
-- pkg/harness/session/store.go: the in-memory store. The clock's reading and the new identifier
-- are arguments; the mutex makes each method one step.
use harness_core.Base.{List, String, Bool, not, Option, none, some, map, if◌then◌else◌, find}
use harness_core.Base.Int.{ℤ, pos, is_zero, eqb_ℤ, ltb_ℤ, inc64}
use harness_core.Base.Text.{str_ltb}
use harness_core.Base.Dict.{Dict, lookup, insert, values}
use harness_core.Base.Sort.{sort}
use harness_core.Base.Result.{
  Result, ok, err, or_error, ◌>>=◌, session_not_found, session_version_conflict,
  session_lease_not_held,
}
use harness_core.Session.State.{
  State, zero_state, ClaimMode, received, idle, claimable_state, lease_held_at,
}

pub record MemoryStore : Type 0 where
  pub sessions : Dict State

-- The record that `Create` builds.
abbrev pub new_session : String → ℤ → String → String → State
new_session id now title goal = record zero_state {
  session_id = id;
  title = title;
  goal = goal;
  phase = received;
  retry_count = pos 0;
  execution_state = idle;
  last_heartbeat_at = now;
  version = pos 1;
  created_at = now;
  updated_at = now;
}

unfoldable pub create : String → ℤ → String → String → MemoryStore → State × MemoryStore
create id now title goal s =
    let st = new_session id now title goal in (st, record { sessions = insert id st s.sessions })

unfoldable pub get : String → MemoryStore → Result State
get id s = or_error (lookup id s.sessions) session_not_found

-- What `Update` stores: the two fields that keep their value if the caller left them at zero.
abbrev pub stamped : State → State → ℤ → State
stamped next current now = record next {
  created_at = if is_zero next.created_at then current.created_at else next.created_at;
  runtime_started_at =
      if is_zero next.runtime_started_at
      then current.runtime_started_at
      else next.runtime_started_at;
  updated_at = now;
}

unfoldable pub update : ℤ → State → MemoryStore → Result MemoryStore
update now next s = do
  current ← or_error (lookup next.session_id s.sessions) session_not_found
  if not (eqb_ℤ next.version (inc64 current.version))
      then err session_version_conflict
      else ok (record { sessions = insert next.session_id (stamped next current now) s.sessions })

-- `List`, in the order of the map's iteration.
unfoldable pub list : MemoryStore → List State
list s = values s.sessions

-- The comparison of `ClaimNext`'s sort.
unfoldable pub before : State → State → Bool
before a b =
    if eqb_ℤ a.created_at b.created_at
    then str_ltb a.session_id b.session_id
    else ltb_ℤ a.created_at b.created_at

-- `s.sessions[id]`, the zero value if the key is missing
abbrev pub fetch : Dict State → String → State
fetch sessions id = elim (lookup id sessions) [ some st ↦ st | none ↦ zero_state ]

abbrev pub grant : String → ℤ → ℤ → State → State
grant lease_id claimed_at expires_at st = record st {
  lease_id = lease_id;
  lease_claimed_at = claimed_at;
  lease_expires_at = expires_at;
  last_heartbeat_at = claimed_at;
  version = inc64 st.version;
  updated_at = claimed_at;
}

-- The sorted loop: the first session, as the map holds it, that is claimable.
unfoldable pub next_claimable : ClaimMode → ℤ → Dict State → Option State
next_claimable mode now sessions =
    find (λ st. claimable_state st mode now)
      (map (λ o. fetch sessions o.session_id) (sort before (values sessions)))

unfoldable pub claim_next : ClaimMode → String → ℤ → ℤ → MemoryStore → Option State × MemoryStore
claim_next mode lease_id claimed_at expires_at s =
    elim (next_claimable mode claimed_at s.sessions) [
      | none ↦ (none, s)
      | some st ↦
          let got = grant lease_id claimed_at expires_at st in
          (some got, record { sessions = insert got.session_id got s.sessions })
    ]

abbrev pub renewed : ℤ → ℤ → State → State
renewed now expires_at st = record st {
  lease_expires_at = expires_at;
  last_heartbeat_at = now;
  version = inc64 st.version;
  updated_at = now;
}

unfoldable pub renew_lease : String → String → ℤ → ℤ → MemoryStore → Result (State × MemoryStore)
renew_lease session_id lease_id now expires_at s = do
  st ← or_error (lookup session_id s.sessions) session_not_found
  if not (lease_held_at st lease_id now)
      then err session_lease_not_held
      else let next = renewed now expires_at st in
        ok (next, record { sessions = insert session_id next s.sessions })

abbrev pub released : ℤ → State → State
released now st = record st {
  lease_id = "";
  lease_claimed_at = pos 0;
  lease_expires_at = pos 0;
  version = inc64 st.version;
  updated_at = now;
}

unfoldable pub release_lease : String → String → ℤ → MemoryStore → Result (State × MemoryStore)
release_lease session_id lease_id now s = do
  st ← or_error (lookup session_id s.sessions) session_not_found
  if not (lease_held_at st lease_id now)
      then err session_lease_not_held
      else let next = released now st in
        ok (next, record { sessions = insert session_id next s.sessions })
