-- ===== src/Signal.antt =====
-- signal/src/signal_handler.rs. `run` is the loop over the signals that arrive, in their order; `none` is
-- `process::exit`. What the subscribers do with the message is not modelled.
use simply_kaspa_indexer.Prelude.{
  ℕ, ◌+◌, ◌≡◌, refl, Bool, true, false, Option, none, some, List, [], ◌∷◌, if◌then◌else◌, ◌>>=◌,
}

-- The two signals of Unix.
pub data Signal : Type 0 where
  sigint sigterm : Signal

-- `sent` counts the messages to the subscribers of `shutdown_tx`.
pub record SignalHandler : Type 0 where
  pub shutdown_sent : Bool
  pub messages : ℕ

abbrev new_handler : SignalHandler
new_handler = record { shutdown_sent = false; messages = 0 }

abbrev is_shutdown : SignalHandler → Bool
is_shutdown h = h.shutdown_sent

unfoldable handle_signal : SignalHandler → Option SignalHandler
handle_signal h =
    if is_shutdown h
    then none
    else some (record { shutdown_sent = true; messages = h.messages + 1 })

unfoldable run : List Signal → SignalHandler → Option SignalHandler
unfolding handle_signal
run [] h = some h
run (signal ∷ signals) h = do h' ← handle_signal h; run signals h'

-- The first signal tells the subscribers once, and the second ends the process.
run_lem :
    (first second : Signal) (signals : List Signal)
    → (run (first ∷ []) new_handler ≡ some (record { shutdown_sent = true; messages = 1 }))
      × (run (first ∷ second ∷ signals) new_handler ≡ none)
unfolding run
run_lem first second signals = (refl, refl)
