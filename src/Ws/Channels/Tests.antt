-- ===== src/Ws/Channels/Tests.antt =====
-- Messages of clients.
use volatility_services.Prelude.{
  ◌≡◌, ℕ, refl, inl, inr, true, Option, none, some, [], ◌∷◌, ◌++◌, if◌then◌else◌,
}
use volatility_services.Prelude.Text.{Text, codes, split}
use volatility_services.Ws.Channels.{
  ClientMessage, publish_message, subscribe, replay, topic_not_found, disconnect, message,
  subscription_check, digits_follow, period_follows, created_channel, is_live,
}
use volatility_services.Ws.Channels.Routes.{message-created_channel}

abbrev asks : Text → Text → Option ℕ → ClientMessage ℕ
asks type channel from = record {
  type = type;
  channel = channel;
  body = 7;
  replay_from = from;
  replay_to = none;
  recorded = true;
}

message-created_channel_example :
    message (asks (codes "SUBSCRIBE") (codes "MFIV/14D/ETH") (some 5)) ≡ (
      if is_live (some 5) none
      then subscribe
          (created_channel (codes "MFIV") (codes "1" ++ codes "4" ++ codes "d") (codes "ETH"))
        ∷ []
      else replay
          (record {
            replay_from = some 5;
            replay_to = none;
            report_frequency = some 5;
            time_period = some (codes "14D");
            asset = some (codes "ETH");
          })
          true
        ∷ [])
unfolding created_channel
message-created_channel_example =
    message-created_channel (asks (codes "SUBSCRIBE") (codes "MFIV/14D/ETH") (some 5)) b'1' b'd'
      (codes "4") (codes "ETH") (refl, (refl, tt)) refl (inr (inl refl)) refl refl

other_messages_run :
    (message (asks (codes "SUBSCRIBE") (codes "MFIV/D/ETH") none) ≡ topic_not_found ∷ [])
    × (message (asks (codes "SUBSCRIBE") (codes "MFIV/7D/SOL") none)
        ≡ subscribe (codes "MFIV/7D/SOL") ∷ [])
    × (message (asks (codes "CLIENT_MESSAGE") [] none) ≡ publish_message 7 ∷ [])
    × (message (asks (codes "PING") [] none) ≡ disconnect ∷ [])
unfolding message subscription_check digits_follow period_follows split
other_messages_run = (refl, refl, refl, refl)
