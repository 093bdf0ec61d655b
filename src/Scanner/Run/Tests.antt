-- ===== src/Scanner/Run/Tests.antt =====
-- The scan run on the example.
use wallet_scan.Store.Tables.{find_finding}
use wallet_scan.Store.Tables.{is_positive_numeric}
use wallet_scan.Store.Tables.{is_chain}
use wallet_scan.Store.Tables.{has_address}
use wallet_scan.Store.Session.{delivered}
use wallet_scan.Store.Scans.{update_runs}
use wallet_scan.Store.Scans.{complete_scan}
use wallet_scan.Store.Scans.{any_ends_before}
use wallet_scan.Store.Scans.{advance_scan}
use wallet_scan.Store.Records.{write_finding}
use wallet_scan.Store.Records.{upsert_findings}
use wallet_scan.Store.Records.{upsert_finding}
use wallet_scan.Store.Records.{save_all_findings}
use wallet_scan.Store.Records.{insert_finding}
use wallet_scan.Store.Records.{insert_event}
use wallet_scan.Store.Records.{announce}
use wallet_scan.Scanner.Run.{tally}
use wallet_scan.Scanner.Run.{notify_new}
use wallet_scan.Scanner.Run.{notify}
use wallet_scan.Scanner.Run.{last_id}
use wallet_scan.Scanner.Run.{close_batch}
use wallet_scan.Scanner.Health.{success}
use wallet_scan.Scanner.Health.{state}
use wallet_scan.Scanner.Health.{is_unhealthy}
use wallet_scan.Prelude.Maps.{insert}
use wallet_scan.Store.Records.{save_positive_findings}
use wallet_scan.Scanner.Check.{on_reply}
use wallet_scan.Scanner.Check.{retry_loop}
use wallet_scan.Scanner.Check.{check_with_retry}
use wallet_scan.Scanner.Check.{on_query}
use wallet_scan.Prelude.Maps.{lookup}
use wallet_scan.Scanner.Check.{check_chain}
use wallet_scan.Scanner.Check.{chains_for}
use wallet_scan.Scanner.Check.{check_chains}
use wallet_scan.Scanner.Check.{check_address}
use wallet_scan.Scanner.Run.{save_result}
use wallet_scan.Scanner.Run.{check_batch}
use wallet_scan.Store.Session.{for_each}
use wallet_scan.Scanner.Run.{process_batch}
use wallet_scan.Store.Scans.{between}
use wallet_scan.Store.Session.{committed}
use wallet_scan.Store.Imports.{select_id}
use wallet_scan.Store.Imports.{find_address}
use wallet_scan.Prelude.Texts.{text_beq}
use wallet_scan.Store.Tables.{is_address_type}
use wallet_scan.Store.Imports.{insert_row}
use wallet_scan.Store.Imports.{insert_address}
use wallet_scan.Store.Imports.{insert_each}
use wallet_scan.Store.Session.{commit}
use wallet_scan.Store.Session.{begun}
use wallet_scan.Store.Session.{transaction}
use wallet_scan.Scanner.Run.{take_batch}
use wallet_scan.Store.Scans.{next_addresses}
use wallet_scan.Scanner.Run.{run}
use wallet_scan.Store.Scans.{has_run}
use wallet_scan.Store.Scans.{insert_run}
use wallet_scan.Store.Scans.{create_scan}
use wallet_scan.Store.Scans.{last_end}
use wallet_scan.Store.Scans.{above}
use wallet_scan.Store.Scans.{id_range}
use wallet_scan.Scanner.Run.{start_scan}
use wallet_scan.Store.Scans.{unscanned_range}
use wallet_scan.Scanner.Run.{resume_or_start}
use wallet_scan.Store.Session.{statement}
use wallet_scan.Store.Scans.{active_scan}
use wallet_scan.Prelude.{◌≡◌, refl, none, [], ◌∷◌, nat_eq}
use wallet_scan.Prelude.Int.{pos}
use wallet_scan.Prelude.Texts.{codes}
use wallet_scan.Domain.{AddressInput}
use wallet_scan.Store.Session.{disconnected, ok, err}
use wallet_scan.Store.Rules.{IsReal}
use wallet_scan.Store.Scans.{oldest_active}
use wallet_scan.Store.Imports.{insert_addresses_with_ids}
use wallet_scan.Store.Imports.Ids.{AnsweredAll, insert_addresses_with_ids-AnsweredAll}
use wallet_scan.Scanner.Run.{Scanner, run_once}
use wallet_scan.Scanner.Run.Safety.{IsSafe}
use wallet_scan.Scanner.Run.Once.{Finished, run_once-IsSafe, run_once-Finished, run_once-IsReal}
use wallet_scan.Scanner.Run.Example.{scanner, fair, system, broken, steady, table-IsSafe}

abbrev rich : Scanner
rich = scanner (pos 7)

run_once-IsSafe_example : IsSafe rich (run_once rich (system broken)).1.db
run_once-IsSafe_example = run_once-IsSafe rich (system broken) (fair (pos 7)) (table-IsSafe (pos 7))

steady_ok : (run_once rich (system steady)).0 ≡ ok tt
unfolding run_once active_scan statement resume_or_start oldest_active unscanned_range start_scan
    id_range above last_end create_scan insert_run has_run run next_addresses take_batch text_beq
    transaction begun commit committed between process_batch for_each check_batch save_result
    check_address check_chains chains_for check_chain lookup on_query check_with_retry retry_loop
    on_reply save_positive_findings insert is_unhealthy state success close_batch last_id notify
    notify_new tally announce insert_event insert_finding save_all_findings upsert_finding
    upsert_findings write_finding advance_scan any_ends_before complete_scan update_runs delivered
    has_address is_chain is_positive_numeric find_finding
steady_ok = refl

broken_err : (run_once rich (system broken)).0 ≡ err disconnected
unfolding run_once active_scan statement resume_or_start oldest_active unscanned_range start_scan
    id_range above last_end create_scan insert_run has_run run next_addresses take_batch text_beq
    transaction begun commit committed between process_batch for_each check_batch save_result
    check_address check_chains chains_for check_chain lookup on_query check_with_retry retry_loop
    on_reply save_positive_findings insert is_unhealthy state success close_batch last_id notify
    notify_new tally announce insert_event insert_finding save_all_findings upsert_finding
    upsert_findings write_finding advance_scan any_ends_before complete_scan update_runs delivered
    has_address is_chain is_positive_numeric find_finding
broken_err = refl

run_once-Finished_example : Finished rich none tt (run_once rich (system steady)).1.db
unfolding oldest_active
run_once-Finished_example =
    run_once-Finished rich (system steady) (fair (pos 7)) (table-IsSafe (pos 7)) steady_ok

run_once-IsReal_example : IsReal disconnected
run_once-IsReal_example =
    run_once-IsReal rich (system broken) disconnected (fair (pos 7)) (table-IsSafe (pos 7))
      broken_err

abbrev input : AddressInput
input = record {
  address_type = codes "btc";
  address = codes "bc1qabc";
  normalized = codes "bc1qabc";
  label = [];
}

imported : (insert_addresses_with_ids 0 (input ∷ input ∷ []) (system steady)).0 ≡ ok (2 ∷ 2 ∷ [], 1)
unfolding insert_addresses_with_ids transaction begun commit insert_each insert_address statement
    insert_row is_address_type text_beq find_address select_id committed
imported = refl

insert_addresses_with_ids-AnsweredAll_example :
    AnsweredAll
      (input ∷ input ∷ [])
      1
      (2 ∷ 2 ∷ [], 1)
      (insert_addresses_with_ids 0 (input ∷ input ∷ []) (system steady)).1.db
insert_addresses_with_ids-AnsweredAll_example =
    insert_addresses_with_ids-AnsweredAll 0 (input ∷ input ∷ []) (system steady) (2 ∷ 2 ∷ [], 1)
      imported
