-- ===== src/HttpServer/Tests.antt =====
-- A request to the balance endpoint, from the body to the slot that it gives back.
use wallet_scan.Prelude.{◌≡◌, refl, true, false, none, some, [], ◌∷◌}
use wallet_scan.Prelude.Int.{pos}
use wallet_scan.Prelude.Texts.{
  Text, codes, text_beq, lower_byte, trim_space, has_prefix, all_bytes, any_byte,
}
use wallet_scan.Prelude.Maps.{lookup, insert}
use wallet_scan.Domain.{type_btc, chain_btc}
use wallet_scan.Providers.{Balance, Result, ok}
use wallet_scan.Adaptive.{
  snapshot, Config, attempt, chain, has_room, new, clamped_max, clamped_initial, or_default, fresh,
}
use wallet_scan.Adaptive.HardCap.{start}
use wallet_scan.Adaptive.Leases.{System, Reach, here}
use wallet_scan.Adaptive.Acquire.{acquire, loop, acquire-Reach}
use wallet_scan.Importer.{normalize_and_validate, is_blank, is_btc_length, has_btc_prefix}
use wallet_scan.HttpServer.{
  BalanceService, single, Request, BalanceResponse, balance, Response, World, checked_state,
  authorized, chain_allowed, cleaned, balance_response, query_response, finish, answer, serve,
  validate, handle_body, handle_balance, handle_capacity, capacity,
}
use wallet_scan.HttpServer.Responses.{Agrees, handle_balance-Agrees}
use wallet_scan.HttpServer.Backed.{IsBacked, checked-IsBacked}
use wallet_scan.HttpServer.Capacity.{Describes, handle_capacity-Describes}
use wallet_scan.HttpServer.Leaks.{handle_balance-leases}
use wallet_scan.HttpServer.Slots.{IsFair, handle_balance-Reach}

abbrev address : Text
address = codes "1BoatSLRHtKNngkdXEeobR76b53LETtpyT"

abbrev found : Balance
found = record {
  atomic = some (pos 150);
  symbol = codes "BTC";
  chain = chain_btc;
  provider = chain_btc;
}

abbrev ask : Text → Result Balance
ask a = ok found

abbrev service : BalanceService
service = record { providers = (chain_btc, ask) ∷ []; has_limiter = true; api_key = codes "k" }

abbrev world : World
world = record {
  arrived = 10;
  rounds = (record { now = 11; others = λ s. s; cancelled = false }) ∷ [];
  during = λ s. s;
  finished = 30;
  latency = pos 15;
  time_stamp = codes "2026-08-21T00:00:00Z";
  show = λ e. codes "error";
}

abbrev request : Request
request = record {
  method = codes "POST";
  key = codes "k";
  body = single (record { address_type = codes " BTC "; chain = codes "btc"; address = address });
}

abbrev config : Config
config = record {
  initial_concurrency = pos 2;
  max_concurrency = pos 3;
  queue_wait = pos 0;
  adjust_interval = pos 0;
  target_latency = pos 0;
}

abbrev before : System
before = start config 0

abbrev body : BalanceResponse
body = record {
  state = checked_state;
  address_type = type_btc;
  address = address;
  chain = chain_btc;
  balance_atomic = pos 150;
  asset_symbol = codes "BTC";
  has_balance = true;
  checked_at = codes "2026-08-21T00:00:00Z";
}

abbrev response : Response
response = record { status = 200; retry_after = none; content = balance body }

abbrev after : System
after = finish world chain_btc (ok found) (acquire 10 chain_btc world.rounds before).1

handled : handle_balance service world request before ≡ some (response, after)
unfolding handle_balance authorized handle_body validate cleaned normalize_and_validate
    chain_allowed serve answer query_response balance_response acquire loop attempt chain has_room
    new clamped_max clamped_initial or_default fresh lookup insert text_beq lower_byte trim_space
    has_prefix all_bytes any_byte is_blank is_btc_length has_btc_prefix
handled = refl

handle_balance-Agrees_example : Agrees response
handle_balance-Agrees_example =
    handle_balance-Agrees service world request before response after handled

checked-IsBacked_example : IsBacked service body
checked-IsBacked_example =
    checked-IsBacked service world request before response after body handled refl

fair : (c : Text) → IsFair world c
fair c = record { passes = ((λ s. here), tt); query = λ s. here; keeps = λ s h. h }

handle_balance-Reach_example : Reach before after
handle_balance-Reach_example =
    handle_balance-Reach service world request before response after fair handled

handle_balance-leases_example : after.leases ≡ before.leases
handle_balance-leases_example =
    handle_balance-leases service world request before response after ((λ s. refl), tt) (λ s. refl)
      handled

abbrev one_out : System
one_out = (acquire 10 chain_btc world.rounds before).1

one_out-Reach : Reach before one_out
one_out-Reach = acquire-Reach 10 chain_btc world.rounds before ((λ s. here), tt)

abbrev capacity_request : Request
capacity_request = record request { method = codes "GET" }

shown :
    (handle_capacity service capacity_request one_out).content ≡ capacity (snapshot one_out.limiter)
unfolding handle_capacity authorized text_beq
shown = refl

handle_capacity-Describes_example :
    Describes (snapshot one_out.limiter) (clamped_max config) one_out.leases
handle_capacity-Describes_example =
    handle_capacity-Describes config 0 one_out-Reach service capacity_request
      (snapshot one_out.limiter) shown
