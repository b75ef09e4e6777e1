-- ===== src/Tests/Run.antt =====
-- The definitions that a run of the model computes through, for the tests' `unfolding` lines.
use clash_of_tokens.Base.{contains, lookup, insert, trim_prefix}
use clash_of_tokens.Config.Metadata.{
  local_inference, effective_billing, billing_override, billing_allowed, has_control, bad_text,
  bad_choice, metadata_guards, validate_metadata,
}
use clash_of_tokens.Config.Pricing.{in_range, valid_price, unit_cost}
use clash_of_tokens.Routing.Types.{
  source_of, target_of, state_addr, quota_addr, account_addr, state_of, quota_of,
}
use clash_of_tokens.Config.Tiers.{tier}
use clash_of_tokens.Routing.Eligible.{
  estimated_request_cost, is_auto, group_key, full_id, request_guards, unit_cost_guard,
  request_cost_guard, tier_floor, group_guards, explicit_guards, route_guards, eligible,
}
use clash_of_tokens.Routing.Preferences.{
  has_suffix, preference_value, compare_values, compare_preferences,
}
use clash_of_tokens.Routing.Pools.{
  busy, full, account_full, pool_score, improves, pool_round, pool_loop, pool_preferences,
}
use clash_of_tokens.Routing.Choose.{
  visit, saturated, passed_over, group_of, candidates_of, value_of, beats, consider, round, scan,
  preferred_of, choose,
}
use clash_of_tokens.Routing.Queue.{
  unlink, remove_waiter, rouses, wake_first, signal, turn_loop, turn,
}
use clash_of_tokens.Routing.Acquire.{
  take_slots, grant, enqueue, settle, decide, attempt, leave, acquire,
}
use clash_of_tokens.Routing.Events.{
  max_execution_events, ring_push, ring_read, outcome_of, event_of, record_event, execution_events,
}
use clash_of_tokens.Routing.Release.{
  quota_cooldown, free_slots, succeed, fail, settle_state, settle_quota, settle_release, release,
  release_administrative,
}
use clash_of_tokens.Routing.Compile.{
  parent_switch, members_of, add_providers, add_account, add_accounts, quota_for, add_targets,
  add_source, link_source, add_sources, compile_groups, index_targets, index_member, index_group,
  index_groups, build, index, new,
}
use clash_of_tokens.Routing.Adopt.{
  keep_entries, switch_state, join_state, join_quota, join_own, join_account, join_sources, prune,
  retire, adopt, find_source, set_enabled,
}
use clash_of_tokens.Routing.Explain.{
  explain_room, explain_reason, target_id, simulate_one, simulate_loop, simulated, simulate,
}
use clash_of_tokens.Protocol.Result.{successful, redacted}
use clash_of_tokens.Config.Text.{
  char_bytes, byte_len, is_alphanumeric, is_name_char, all_name_chars, is_identifier, has_path_mark,
  trim_slashes, is_space, is_blank, valid_credential_ref,
}
use clash_of_tokens.Config.Registry.{protocols_of, lookup_descriptor, supports}
use clash_of_tokens.Config.Profiles.{
  atoi_from, atoi, all_debug_chars, is_debug_path, firefox_guard, endpoint_guards, profile_guards,
  default_browser_guards, binding_guards, validate_browser_profiles, profile_browser,
  account_browser, source_browser,
}
use clash_of_tokens.Config.Accounts.{
  source_credential_ref, effective_source, provider_guards, account_url_guards,
  account_metadata_guards, account_guards, account_binding_guards, bound_source_guards,
  validate_accounts,
}
use clash_of_tokens.Config.Validate.Groups.{preference_guards, member_guards, group_guards_of}
use clash_of_tokens.Config.Validate.Sources.{
  device_model, browser_source_guards, device_off, project_guards, http_guards, url_guards,
  capacity_guards, protocol_guards, model_guards, adapter_guards, source_guards, meet_source,
}
use clash_of_tokens.Config.Validate.{
  bad_runtime_limits, bad_limits_of_browser, bad_endpoint, listen_guards, top_guards,
  browser_guards, validate,
}
use clash_of_tokens.Config.Service.{
  shrink, persist, preview_from, preview, start, submit, apply, restore, rollback, check_versions,
  check_journal,
}
use clash_of_tokens.Routing.Output.{total_of, price_of, account_for, record_execution, first_output}
use clash_of_tokens.Api.Attempts.{
  limit_in, attempt_limit, rejected_before_generation, is_safe, spend, answered,
}

unfoldable pub everything : Unit {0}
unfolding contains lookup insert trim_prefix local_inference effective_billing billing_override
    billing_allowed has_control bad_text bad_choice metadata_guards validate_metadata in_range
    valid_price unit_cost source_of target_of state_addr quota_addr account_addr state_of quota_of
    tier estimated_request_cost is_auto group_key full_id request_guards unit_cost_guard
    request_cost_guard tier_floor group_guards explicit_guards route_guards eligible has_suffix
    preference_value compare_values compare_preferences busy full account_full pool_score improves
    pool_round pool_loop pool_preferences visit saturated passed_over group_of candidates_of
    value_of beats consider round scan preferred_of choose unlink remove_waiter rouses wake_first
    signal turn_loop turn take_slots grant enqueue settle decide attempt leave acquire
    max_execution_events ring_push ring_read outcome_of event_of record_event execution_events
    quota_cooldown free_slots succeed fail settle_state settle_quota settle_release release
    release_administrative parent_switch members_of add_providers add_account add_accounts quota_for
    add_targets add_source link_source add_sources compile_groups index_targets index_member
    index_group index_groups build index new keep_entries switch_state join_state join_quota
    join_own join_account join_sources prune retire adopt find_source set_enabled explain_room
    explain_reason target_id simulate_one simulate_loop simulated simulate successful redacted
    char_bytes byte_len is_alphanumeric is_name_char all_name_chars is_identifier has_path_mark
    trim_slashes is_space is_blank valid_credential_ref protocols_of lookup_descriptor supports
    atoi_from atoi all_debug_chars is_debug_path firefox_guard endpoint_guards profile_guards
    default_browser_guards binding_guards validate_browser_profiles profile_browser account_browser
    source_browser source_credential_ref effective_source provider_guards account_url_guards
    account_metadata_guards account_guards account_binding_guards bound_source_guards
    validate_accounts preference_guards member_guards group_guards_of device_model
    browser_source_guards device_off project_guards http_guards url_guards capacity_guards
    protocol_guards model_guards adapter_guards source_guards meet_source bad_runtime_limits
    bad_limits_of_browser bad_endpoint listen_guards top_guards browser_guards validate shrink
    persist preview_from preview start submit apply restore rollback check_versions check_journal
    total_of price_of account_for record_execution first_output limit_in attempt_limit
    rejected_before_generation is_safe spend answered
everything = tt
