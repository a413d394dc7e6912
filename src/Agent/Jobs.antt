-- ===== src/Agent/Jobs.antt =====
-- agent/internal/checker/checker.go: `checkProviderFiles`, one provider's check, with its pool of
-- workers. The loop that offers the contracts and the workers that take them run at the same time:
-- a run is a list of turns, in any order. A turn that cannot happen changes nothing.
pub mod Answered
pub mod Finishes
use mytonprovider_backend.Prelude.{
  ℕ, ℤ, pos, is_empty, zero, suc, ◌+◌, String, Bool, Option, none, some, List, [], ◌∷◌, ltb,
  if◌then◌else◌, append_text,
}
use mytonprovider_backend.Reason.{Code}
use mytonprovider_backend.Db.{ContractCheckResult}
use mytonprovider_backend.Shard.{ContractRef, Endpoint, ProviderBatch}
use mytonprovider_backend.Agent.Tally.{
  FailureTally, new_tally, stopped_now, tally_record, record_skip, make_result,
  fill_provider_results,
}

-- What `checkPiece` gave back, and how long it took.
pub record Checked : Type 0 where
  pub code : Code
  pub details : String
  pub latency_ms : ℕ

-- Where a contract stands: it is nil, the loop has not come to it, the loop waits for a worker to
-- take it, a worker has taken it, a worker checks its piece, or its result is written.
pub data Slot : Type 0 where
  absent : Slot
  waiting offered taken checking : ContractRef → Slot
  answered : ContractCheckResult → Slot

pub record Pool : Type 0 where
  pub tally : FailureTally
  pub slots : List Slot

-- A turn of the loop, or of the worker that has the contract at an index.
pub data Turn : Type 0 where
  loop_turn : Turn
  worker_turn : ℕ → Checked → Turn

abbrev pub slot_of : Option ContractRef → Slot
slot_of none = Slot.absent
slot_of (some contract) = Slot.waiting contract

abbrev pub slots_of : List (Option ContractRef) → List Slot
slots_of [] = []
slots_of (c ∷ cs) = slot_of c ∷ slots_of cs

-- `pending`: the contracts that are not nil.
unfoldable pub pending : List (Option ContractRef) → ℕ
pending [] = 0
pending (none ∷ cs) = pending cs
pending (some c ∷ cs) = suc (pending cs)

abbrev pub is_busy : Slot → ℕ
is_busy (taken c) = 1
is_busy (checking c) = 1
is_busy s = 0

unfoldable pub busy : List Slot → ℕ
busy [] = 0
busy (s ∷ ss) = is_busy s + busy ss

-- The last loop of `checkProviderFiles`.
unfoldable pub collect : List Slot → List ContractCheckResult
collect [] = []
collect (answered r ∷ ss) = r ∷ collect ss
collect (absent ∷ ss) = collect ss
collect (waiting c ∷ ss) = collect ss
collect (offered c ∷ ss) = collect ss
collect (taken c ∷ ss) = collect ss
collect (checking c ∷ ss) = collect ss

-- `fmt.Sprintf("%d", n)`
module _ (written : ℕ → String) where
  unfoldable pub skip_details : FailureTally → String
  skip_details t = append_text "stage=skip reason=too_many_consecutive_failures threshold=" (
      append_text (written t.threshold) (append_text " fails_in_a_row=" (written t.fails_in_a_row)))

  -- `recordSkip`, for the contract of one slot.
  unfoldable pub skip : ProviderBatch → FailureTally → ContractRef → FailureTally × Slot
  unfolding skip_details
  skip provider t contract = (
    record_skip t (skip_details t),
    Slot.answered (make_result provider contract Code.unavailable_provider 0 (skip_details t)),
  )

  -- A worker's next step on the contract it has.
  unfoldable pub work : ProviderBatch → Checked → FailureTally → Slot → FailureTally × Slot
  unfolding skip
  work provider done t (taken contract) =
      if stopped_now t then skip provider t contract else (t, Slot.checking contract)
  work provider done t (checking contract) = (
    tally_record t done.code done.details,
    Slot.answered (make_result provider contract done.code done.latency_ms done.details),
  )
  work provider done t s = (t, s)

  unfoldable pub work_at :
      ProviderBatch → ℕ → Checked → FailureTally → List Slot → FailureTally × List Slot
  unfolding work
  work_at provider i done t [] = (t, [])
  work_at provider zero done t (s ∷ ss) = let (t', s') = work provider done t s in (t', s' ∷ ss)
  work_at provider (suc i) done t (s ∷ ss) =
      let (t', ss') = work_at provider i done t ss in (t', s ∷ ss')

  -- The loop over the contracts: it goes on behind what it has handed out, and waits at a contract
  -- that it offers until a worker is free.
  unfoldable pub loop_step :
      ProviderBatch → Bool → FailureTally → List Slot → FailureTally × List Slot
  unfolding skip
  loop_step provider free t [] = (t, [])
  loop_step provider free t (waiting contract ∷ ss) =
      let (t', s') =
        if stopped_now t then skip provider t contract else (t, Slot.offered contract) in
      (t', s' ∷ ss)
  loop_step provider free t (offered contract ∷ ss) =
      (t, (if free then Slot.taken contract else Slot.offered contract) ∷ ss)
  loop_step provider free t (absent ∷ ss) =
      let (t', ss') = loop_step provider free t ss in (t', Slot.absent ∷ ss')
  loop_step provider free t (taken c ∷ ss) =
      let (t', ss') = loop_step provider free t ss in (t', Slot.taken c ∷ ss')
  loop_step provider free t (checking c ∷ ss) =
      let (t', ss') = loop_step provider free t ss in (t', Slot.checking c ∷ ss')
  loop_step provider free t (answered r ∷ ss) =
      let (t', ss') = loop_step provider free t ss in (t', Slot.answered r ∷ ss')

  unfoldable pub turn : ProviderBatch → ℕ → Turn → Pool → Pool
  unfolding work_at loop_step busy
  turn provider workers loop_turn p =
      let (t, ss) = loop_step provider (ltb (busy p.slots) workers) p.tally p.slots in
      record { tally = t; slots = ss }
  turn provider workers (worker_turn i done) p =
      let (t, ss) = work_at provider i done p.tally p.slots in record { tally = t; slots = ss }

  unfoldable pub turns : ProviderBatch → ℕ → List Turn → Pool → Pool
  unfolding turn
  turns provider workers [] p = p
  turns provider workers (e ∷ es) p = turns provider workers es (turn provider workers e p)

-- How far `checkProviderFiles` gets with the provider's peer; the text is the error's.
pub data Dial : Type 0 where
  start_failed register_failed ping_failed : String → Dial
  connected : Dial

-- The address of the storage endpoint; the getters read a nil endpoint as an empty one. The function
-- is `strconv.Itoa`.
abbrev pub endpoint_addr : (ℤ → String) → Option Endpoint → String
endpoint_addr itoa none = append_text ":" (itoa (pos 0))
endpoint_addr itoa (some e) = append_text e.ip (append_text ":" (itoa e.port))

abbrev pub fewer : ℕ → ℕ → ℕ
fewer a b = if ltb b a then b else a

module _ (written : ℕ → String) (threshold : List (Option ContractRef) → ℕ) where
  unfoldable pub start : List (Option ContractRef) → Pool
  start contracts = record { tally = new_tally (threshold contracts); slots = slots_of contracts }

  -- `checkProviderFiles` for a batch that has contracts.
  unfoldable pub check_contracts :
      ProviderBatch → String → ℕ → Dial → List Turn → List ContractCheckResult
  unfolding pending collect turns start
  check_contracts provider addr max_bags (start_failed err) es =
      fill_provider_results provider provider.contracts Code.cant_create_peer
        (append_text "stage=start_client error=" err)
  check_contracts provider addr max_bags (register_failed err) es =
      fill_provider_results provider provider.contracts Code.cant_create_peer (
        append_text "stage=register_client endpoint="
          (append_text addr (append_text " error=" err)))
  check_contracts provider addr max_bags (ping_failed err) es =
      fill_provider_results provider provider.contracts Code.failed_initial_ping
        (append_text "stage=initial_ping endpoint=" (append_text addr (append_text " error=" err)))
  check_contracts provider addr max_bags connected es =
      let workers = fewer max_bags (pending provider.contracts) in
      if ltb workers 1
      then []
      else collect (turns written provider workers es (start provider.contracts)).slots

  -- The list is the turns of the pool until the jobs are done.
  unfoldable pub check_provider_files :
      ProviderBatch → (ℤ → String) → ℕ → Dial → List Turn → List ContractCheckResult
  unfolding check_contracts
  check_provider_files provider itoa max_bags dial es =
      if is_empty provider.contracts
      then []
      else check_contracts provider (endpoint_addr itoa provider.storage_endpoint) max_bags dial es
