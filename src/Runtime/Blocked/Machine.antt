-- ===== src/Runtime/Blocked/Machine.antt =====
-- What the life cycle of blocked runtimes promises (pkg/harness/runtime/blocked_runtime_lifecycle.go),
-- without stores, versions, times or metadata: which blocked runtime a session waits on, and the
-- status of each blocked runtime.
use harness_core.Base.{
  String, ◌≡◌, refl, sym, ◌∙◌, true, false, Option, none, some, if◌then◌else◌, ◌==◌, Bool-cases,
  inl, inr, eq_iff, arith, ap, some-ne-none,
}
use harness_core.Execution.Blocked.{BlockedRuntimeStatus, pending}
use harness_core.Runtime.Blocked.{is_answer, is_over}

pub record Machine : Type 0 where
  pub waits_on : String → Option String
  pub owner : String → Option String
  pub status : String → Option BlockedRuntimeStatus

-- A table with one entry written.
abbrev pub at {ℓ} : {A : Type ℓ} → String → A → (String → Option A) → String → Option A
at key value table k = if key == k then some value else table k

abbrev pub without {ℓ} : {A : Type ℓ} → String → (String → Option A) → String → Option A
without key table k = if key == k then none else table k

-- A session that waits on nothing is blocked by a new blocked runtime; that blocked runtime is
-- answered while it is pending; and it ends, by being resumed or aborted, while its session waits
-- on it.
pub data Move : Machine → Machine → Type 0 where
  block :
      {m : Machine} (session_id id : String)
      → m.waits_on session_id ≡ none
      → m.status id ≡ none
      → Move m (record {
        waits_on = at session_id id m.waits_on;
        owner = at id session_id m.owner;
        status = at id pending m.status;
      })
  answer :
      {m : Machine} (session_id id : String) (s : BlockedRuntimeStatus)
      → m.waits_on session_id ≡ some id
      → m.owner id ≡ some session_id
      → m.status id ≡ some pending
      → is_answer s ≡ true
      → Move m (record m { status = at id s m.status })
  finish :
      {m : Machine} (session_id id : String) (before after : BlockedRuntimeStatus)
      → m.waits_on session_id ≡ some id
      → m.owner id ≡ some session_id
      → m.status id ≡ some before
      → is_over before ≡ false
      → is_over after ≡ true
      → Move m
          (record m { waits_on = without session_id m.waits_on; status = at id after m.status })

pub data Moves : Machine → Machine → Type 0 where
  stay : {m : Machine} → Moves m m
  move : {m n o : Machine} → Move m n → Moves n o → Moves m o

pub append : {m n o : Machine} → Moves m n → Moves n o → Moves m o
append stay there = there
append (move first rest) there = move first (append rest there)

-- What has ended stays ended, in the same way.
pub Move-final :
    {m n : Machine} (id : String) (s : BlockedRuntimeStatus)
    → m.status id ≡ some s
    → is_over s ≡ true
    → Move m n
    → n.status id ≡ some s
Move-final id s here over (block session_id new free fresh) = ground (arith, eq_iff new id)
Move-final id s here over (answer session_id other t waits owns was answers) =
    ground (arith, eq_iff other id)
Move-final id s here over (finish session_id other before after waits owns was going ends) =
    ground (arith, eq_iff other id)

pub Moves-final :
    {m n : Machine} (id : String) (s : BlockedRuntimeStatus)
    → m.status id ≡ some s
    → is_over s ≡ true
    → Moves m n
    → n.status id ≡ some s
Moves-final id s here over stay = here
Moves-final id s here over (move first rest) =
    Moves-final id s (Move-final id s here over first) over rest

-- What a session waits on is its own and has not ended.
abbrev pub WaitsOnOpen : Machine → Type 0
WaitsOnOpen m =
    (session_id id : String)
    → m.waits_on session_id ≡ some id
    → (m.owner id ≡ some session_id)
      × (s : BlockedRuntimeStatus) × (m.status id ≡ some s)
      × (is_over s ≡ false)

-- A blocked runtime that has not ended is waited on by its session.
abbrev pub OpenIsWaitedOn : Machine → Type 0
OpenIsWaitedOn m =
    (session_id id : String) (s : BlockedRuntimeStatus)
    → m.owner id ≡ some session_id
    → m.status id ≡ some s
    → is_over s ≡ false
    → m.waits_on session_id ≡ some id

-- A session waits on a blocked runtime exactly if that one is its own and has not ended; so it has
-- at most one that has not ended, and no two sessions wait on the same one.
abbrev pub IsSound : Machine → Type 0
IsSound m = WaitsOnOpen m × OpenIsWaitedOn m

answer-over : (s : BlockedRuntimeStatus) → is_answer s ≡ true → is_over s ≡ false
answer-over BlockedRuntimeStatus.pending h = refl
answer-over BlockedRuntimeStatus.approved h = refl
answer-over BlockedRuntimeStatus.rejected h = refl
answer-over BlockedRuntimeStatus.confirmed h = refl
answer-over BlockedRuntimeStatus.resumed h = cc
answer-over BlockedRuntimeStatus.aborted h = cc
answer-over (BlockedRuntimeStatus.unknown t) h = refl

Move-WaitsOnOpen : {m n : Machine} → IsSound m → Move m n → WaitsOnOpen n
Move-WaitsOnOpen sound (block owner new free fresh) session_id id waiting =
    elim (Bool-cases (owner == session_id)) [
      | inl e ↦
          let same : new ≡ id = cc (rw e at waiting) in
          (
            ground (arith, eq_iff new id, eq_iff owner session_id),
            pending,
            ground (arith, eq_iff new id),
            refl,
          )
      | inr e ↦
          let (own, s, is, going) = sound.0 session_id id (rw e at waiting) in
          (ground (arith, eq_iff new id), s, ground (arith, eq_iff new id), going)
    ]
Move-WaitsOnOpen sound (answer owner new t waits owns was answers) session_id id waiting =
    let (own, s, is, going) = sound.0 session_id id waiting in
    elim (Bool-cases (new == id)) [
      | inl e ↦ (own, t, rw e refl, answer-over t answers)
      | inr e ↦ (own, s, rw e is, going)
    ]
Move-WaitsOnOpen {m = m} sound (finish owner new before after waits owns was ongoing ends)
      session_id id waiting =
    elim (Bool-cases (owner == session_id)) [
      | inl e ↦ absurd (some-ne-none (sym (rw e at waiting)))
      | inr e ↦
          let (own, s, is, going) = sound.0 session_id id (rw e at waiting) in
          elim (Bool-cases (new == id)) [
            | inl same ↦
                let shared : m.owner id ≡ some owner =
                  ap m.owner (sym ((eq_iff new id).0 same)) ∙ owns in
                let one : owner ≡ session_id = cc (shared, own) in
                absurd (cc ((eq_iff owner session_id).1 one, e))
            | inr other ↦ (own, s, rw other is, going)
          ]
    ]

Move-OpenIsWaitedOn : {m n : Machine} → IsSound m → Move m n → OpenIsWaitedOn n
Move-OpenIsWaitedOn sound (block owner new free fresh) session_id id s own is going =
    elim (Bool-cases (new == id)) [
      | inl e ↦ ground (arith, eq_iff new id, eq_iff owner session_id)
      | inr e ↦
          let waited = sound.1 session_id id s (rw e at own) (rw e at is) going in
          ground (arith, eq_iff owner session_id)
    ]
Move-OpenIsWaitedOn {m = m} sound (answer owner new t waits owns was answers) session_id id s own is
      going =
    elim (Bool-cases (new == id)) [
      | inl e ↦
          let same : new ≡ id = (eq_iff new id).0 e in
          sound.1 session_id id pending own (ap m.status (sym same) ∙ was) refl
      | inr e ↦ sound.1 session_id id s own (rw e at is) going
    ]
Move-OpenIsWaitedOn sound (finish owner new before after waits owns was ongoing ends) session_id id
      s own is going =
    elim (Bool-cases (new == id)) [
      | inl e ↦ absurd (ground (arith, eq_iff new id))
      | inr e ↦
          let waited = sound.1 session_id id s own (rw e at is) going in
          ground (arith, eq_iff owner session_id, eq_iff new id)
    ]

pub Moves-IsSound : {m n : Machine} → IsSound m → Moves m n → IsSound n
Moves-IsSound sound stay = sound
Moves-IsSound sound (move first rest) =
    Moves-IsSound (Move-WaitsOnOpen sound first, Move-OpenIsWaitedOn sound first) rest
