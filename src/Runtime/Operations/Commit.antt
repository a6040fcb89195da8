-- ===== src/Runtime/Operations/Commit.antt =====
-- `commit` of src/runtime/nystRuntime.ts.
use nyst.Base.{
  String, Bool, not, Option, none, some, [], ◌∷◌, is_some, err, ◌==◌, option_eq, if◌then◌else◌,
}
use nyst.Model.Control.{ContinuationDisposition, continuation_eq}
use nyst.Model.Action.{ActionRecord, ActionContext}
use nyst.Model.Resolution.{OutcomeResolution, DispatchStatus, dispatch_status_eq}
use nyst.Model.Spec.{EffectSpec}
use nyst.Store.Actions.{NewActionIntent, Recorded, record_intent, find_by_identity}
use nyst.Store.Runtime.{ContinuationBasis, DispatchGuard, get, initialize}
use nyst.Runtime.Exec.{Failure, Exec, pure, or_fail, guard, ◌>>=◌, ◌>>◌}
use nyst.Runtime.Host.{
  Host, World, FaultPoint, get_spec, latest_spec, elapse, landed, refusing, call, read, ask, hit,
  assert_dispatch_eligibility, ask_clock,
}
use nyst.Runtime.Dispatch.{ensure_dispatch_plan, dispatch}
use nyst.Runtime.Operations.{reconcile, require_current_resolution, require_runtime}

-- `ContinuationGuard`
pub record ContinuationGuard : Type 0 where
  pub source_action : String
  pub source_resolution : String

-- `CommitResult`
pub record CommitResult (Json : Type 0) : Type 0 where
  pub action : ActionRecord Json
  pub created : Bool
  pub resolution : OutcomeResolution

module _ {Json : Type 0} (h : Host Json) where
  -- The specification that an action of this identity has, or else the current one.
  unfoldable pub choose_spec :
      String → Option (ActionRecord Json) → Exec (World Json) (EffectSpec Json)
  choose_spec effect none = or_fail Failure.missing_effect_spec (latest_spec effect h.registry)
  choose_spec effect (some prior) =
      or_fail Failure.missing_effect_spec (get_spec prior.effect_name prior.spec_version h.registry)

  -- `recordIntent`. `newUuid` draws an id that no action has: a draw that repeats one ends the run.
  unfoldable pub record_new : NewActionIntent Json → Exec (World Json) (Recorded Json)
  record_new intent w =
      let v = elapse h w in
      if is_some (v.store.by_id (h.new_id v.tick))
      then (err Failure.id_taken, v)
      else landed h v (record_intent h.action_schema (h.new_id v.tick) intent v.store)

  unfoldable pub make_intent :
      String
      → String
      → Json
      → ActionContext
      → EffectSpec Json
      → Exec (World Json) (NewActionIntent Json)
  make_intent effect key input context spec = do
    parsed ← or_fail Failure.malformed_input (h.parse_input spec input)
    hash ← or_fail Failure.malformed_input (h.input_hash spec.semantic_fields parsed)
    now ← ask_clock h
    pure (record {
      effect_name = effect;
      business_key = key;
      input = parsed;
      input_hash = hash;
      spec_version = spec.schema_version;
      context = context;
      clock = now;
    })

  -- The resolution that a dependent action builds on, if it depends on one.
  unfoldable pub continuation_of :
      Option ContinuationGuard → Exec (World Json) (Option ContinuationBasis)
  continuation_of none = pure none
  continuation_of (some g) = do
    source ← require_current_resolution h g.source_action g.source_resolution
    basis ← or_fail Failure.stale_decision source.basis
    guard (source.control.continuation == ContinuationDisposition.allowed)
        Failure.continuation_blocked
    pure (
        some (record {
          source_action = source.action_id;
          source_resolution = source.resolution_id;
          source_sequence = basis.resolution_sequence;
          source_evidence = basis.evidence_sequence;
        }))

  abbrev pub continuation_guard : Option ContinuationBasis → Option DispatchGuard
  continuation_guard none = none
  continuation_guard (some c) =
      some (record { resolution_sequence = none; evidence_sequence = none; continuation = some c })

  -- A dispatch that was not granted while the action is still not started: the basis went stale.
  unfoldable pub check_stale : String → Bool → Bool → Exec (World Json) Unit
  check_stale id done dependent =
      if done
      then pure tt
      else if dependent
      then (do
        after ← read h (λ s. get id s)
        let status : Option DispatchStatus = elim after [
          | none ↦ none
          | some r ↦ some r.dispatch_status
        ]
        guard (not (status == some DispatchStatus.not_started)) Failure.stale_decision)
      else pure tt

  unfoldable pub dispatch_first :
      ActionRecord Json → Option ContinuationGuard → Exec (World Json) Unit
  unfolding continuation_of check_stale
  dispatch_first action dependency = do
    continuation ← continuation_of dependency
    done ← dispatch h action (DispatchStatus.not_started ∷ []) (continuation_guard continuation)
    check_stale action.action_id done (is_some continuation)

  -- `commit`
  unfoldable pub commit :
      String
      → String
      → Json
      → ActionContext
      → Option ContinuationGuard
      → Exec (World Json) (CommitResult Json)
  unfolding choose_spec record_new make_intent dispatch_first
  commit effect key input context dependency = do
    prior ← read h (λ s. find_by_identity effect key s)
    spec ← choose_spec effect prior
    intent ← make_intent effect key input context spec
    recorded ← record_new intent
    call h (λ n s. initialize recorded.action.action_id s)
    if recorded.created then hit h FaultPoint.after_intent_persistence recorded.action else pure tt
    ask h (λ n. refusing (h.establish_eligibility n recorded.action))
    assert_dispatch_eligibility h recorded.action
    hit h FaultPoint.after_dispatch_eligibility recorded.action
    hit h FaultPoint.before_dispatch_plan recorded.action
    action ← ensure_dispatch_plan h recorded.action spec
    state ← require_runtime h action.action_id
    if state.dispatch_status == DispatchStatus.not_started
        then dispatch_first action dependency
        else pure tt
    found ← read h (λ s. s.by_id action.action_id)
    let final : ActionRecord Json = elim found [ none ↦ action | some a ↦ a ]
    resolution ← reconcile h final.action_id
    pure (record { action = final; created = recorded.created; resolution = resolution })
