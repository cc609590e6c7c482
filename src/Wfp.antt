-- ===== src/Wfp.antt =====
-- src-tauri/src/bin/kwik_helper/wfp.rs: the engine handle of the Windows Filtering Platform, its
-- transactions and the filters that the helper adds. What each Windows call answers is the `Api`.
-- Display names are left out: no code reads them.
use kwik_proxy_secure.Prelude.{
  ℕ, Text, Bool, true, false, List, [], ◌∷◌, Option, none, some, Result, ok, err, ◌>>=◌, ◌>>◌,
  ensure, if◌then◌else◌,
}

pub data Layer : Type 0 where
  connect_v4 connect_v6 : Layer

pub data Action : Type 0 where
  permit block : Action

pub data Condition : Type 0 where
  remote_v4 : ℕ → ℕ → Condition
  remote_v6 : ℕ → ℕ → Condition
  remote_port : ℕ → Condition
  protocol : ℕ → Condition
  app_id : Text → Condition
  local_interface : ℕ → Condition

pub record Filter : Type 0 where
  pub layer : Layer
  pub weight : ℕ
  pub action : Action
  pub conditions : List Condition

pub data Status : Type 0 where
  success not_found failed : Status

pub data Error : Type 0 where
  open_failed begin_failed commit_failed provider_failed sublayer_failed filter_failed : Error
  app_id_failed delete_sublayer_failed delete_provider_failed query_failed : Error

-- The answers of the Windows calls during one request.
pub record Api : Type 0 where
  pub engine_open : Bool → Bool
  pub transaction_begin : Bool
  pub transaction_commit : Bool
  pub provider_add : Bool
  pub sublayer_add : Bool
  pub filter_add : List Filter → Filter → Bool
  pub app_id_from_file_name : Text → Option Text
  pub sublayer_delete : Status
  pub provider_delete : Status
  pub sublayer_get : Status

-- An open handle, with the filters that it holds, newest first.
pub record WfpEngine : Type 0 where
  pub dynamic : Bool
  pub filters : List Filter

-- A step of a transaction: from the filters added so far to those after it.
abbrev pub Tx : Type 0
Tx = List Filter → Result Error (List Filter)

module _ (api : Api) where
  unfoldable pub open_internal : Bool → Result Error WfpEngine
  open_internal dynamic =
      if api.engine_open dynamic
      then ok (record { dynamic = dynamic; filters = [] })
      else err open_failed

  unfoldable pub open_dynamic : Result Error WfpEngine
  unfolding open_internal
  open_dynamic = open_internal true

  unfoldable pub open_persistent : Result Error WfpEngine
  unfolding open_internal
  open_persistent = open_internal false

  -- Commit on `Ok`, abort on `Err`: after an abort the handle holds what it held before.
  unfoldable pub transaction : WfpEngine → Tx → Result Error WfpEngine
  transaction engine f = do
    ensure api.transaction_begin begin_failed
    added ← f engine.filters
    ensure api.transaction_commit commit_failed
    ok (record engine { filters = added })

  unfoldable pub add_provider : Tx
  add_provider fs = do ensure api.provider_add provider_failed; ok fs

  unfoldable pub add_sublayer : Tx
  add_sublayer fs = do ensure api.sublayer_add sublayer_failed; ok fs

  unfoldable pub add_filter : Layer → ℕ → Action → List Condition → Tx
  add_filter layer weight action conditions fs =
      let filter : Filter = record {
        layer = layer;
        weight = weight;
        action = action;
        conditions = conditions;
      } in
      if api.filter_add fs filter then ok (filter ∷ fs) else err filter_failed

  unfoldable pub add_filter_block_all : Layer → Tx
  unfolding add_filter
  add_filter_block_all layer = add_filter layer 0 block []

  unfoldable pub add_filter_allow_v4_subnet : Layer → ℕ → ℕ → ℕ → Tx
  unfolding add_filter
  add_filter_allow_v4_subnet layer weight addr mask =
      add_filter layer weight permit (remote_v4 addr mask ∷ [])

  unfoldable pub add_filter_allow_v6_subnet : Layer → ℕ → ℕ → ℕ → Tx
  unfolding add_filter
  add_filter_allow_v6_subnet layer weight addr prefix_length =
      add_filter layer weight permit (remote_v6 addr prefix_length ∷ [])

  unfoldable pub add_filter_allow_v4_addr : Layer → ℕ → ℕ → Tx
  unfolding add_filter_allow_v4_subnet
  add_filter_allow_v4_addr layer weight addr =
      add_filter_allow_v4_subnet layer weight addr 0xFFFF_FFFF

  unfoldable pub add_filter_allow_v6_addr : Layer → ℕ → ℕ → Tx
  unfolding add_filter_allow_v6_subnet
  add_filter_allow_v6_addr layer weight addr = add_filter_allow_v6_subnet layer weight addr 128

  unfoldable pub add_filter_allow_v4_addr_port_proto : Layer → ℕ → ℕ → ℕ → ℕ → Tx
  unfolding add_filter
  add_filter_allow_v4_addr_port_proto layer weight addr port proto =
      add_filter layer weight permit
        (remote_v4 addr 0xFFFF_FFFF ∷ remote_port port ∷ protocol proto ∷ [])

  unfoldable pub add_filter_block_port_proto : Layer → ℕ → ℕ → ℕ → Tx
  unfolding add_filter
  add_filter_block_port_proto layer weight port proto =
      add_filter layer weight block (remote_port port ∷ protocol proto ∷ [])

  unfoldable pub add_filter_allow_local_interface_luid : Layer → ℕ → ℕ → Tx
  unfolding add_filter
  add_filter_allow_local_interface_luid layer weight luid =
      add_filter layer weight permit (local_interface luid ∷ [])

  unfoldable pub add_filter_allow_app : Layer → ℕ → Text → Tx
  unfolding add_filter
  add_filter_allow_app layer weight path fs = elim (api.app_id_from_file_name path) [
    | none ↦ err app_id_failed
    | some blob ↦ add_filter layer weight permit (app_id blob ∷ []) fs
  ]

  unfoldable pub has_orphan_filters : Result Error Bool
  unfolding open_persistent
  has_orphan_filters = do
    engine ← open_persistent
    elim api.sublayer_get [ success ↦ ok true | not_found ↦ ok false | failed ↦ err query_failed ]

  abbrev pub is_success_or_expected_not_found : Status → Bool
  is_success_or_expected_not_found success = true
  is_success_or_expected_not_found not_found = true
  is_success_or_expected_not_found failed = false

  delete_objects : Tx
  delete_objects fs = do
    ensure (is_success_or_expected_not_found api.sublayer_delete) delete_sublayer_failed
    ensure (is_success_or_expected_not_found api.provider_delete) delete_provider_failed
    ok fs

  unfoldable pub cleanup_provider : Result Error (Unit {0})
  unfolding open_persistent transaction delete_objects
  cleanup_provider = do engine ← open_persistent; done ← transaction engine delete_objects; ok tt
