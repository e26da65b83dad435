-- ===== src/MarketData.antt =====
-- src/market_data_client.c. Its functions have the text of those of src/trader_client.c, and main
-- differs in the first command alone: each is the function of that program.
use the_socket_exchange.Prelude.{ℕ, Bool, List}
use the_socket_exchange.Output.{WriteAnswer}
use the_socket_exchange.Client as Trader
use the_socket_exchange.Client.{Client, Polls}
use the_socket_exchange.Client.Main.{Network, Run, market_program, client_main}

pub drain_responses : Client → Client
drain_responses = Trader.drain_responses

module _ (write : ℕ → List ℕ → WriteAnswer) where
  pub write_all : Client → List ℕ → Client × Bool
  write_all = Trader.write_all write

  pub send_pending_commands : Client → Client × Bool
  send_pending_commands = Trader.send_pending_commands write

  pub communicate : Polls → Client → Client × Bool
  communicate = Trader.communicate write

  pub main : Polls → Network → List (List ℕ) → Run
  main polls = client_main market_program write polls
