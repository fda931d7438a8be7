-- ===== src/Ws/Channels.antt =====
-- The channels of services/ws.service.ts: the handler of a client's message and of the event
-- `MFIV.*.*.index.created`. What the handlers do is a list of effects.
pub mod Routes
mod Tests
use volatility_services.Prelude.{
  ℕ, zero, suc, ◌+◌, ◌-◌, ◌≡◌, ◌≢◌, refl, sym, ap, ◌∙◌, String, Bool, true, false, Option, none,
  some, List, [], ◌∷◌, ◌++◌, map, All, nat_beq, leb, ◌&&◌, ◌||◌, if◌then◌else◌, Bool-cases, inl,
  inr, arith,
}
use volatility_services.Prelude.Text.{upper, to_upper, Text, codes, split, is_digit}
use volatility_services.Calculator.Platform.{Index}

-- `JSON.parse` of a message, its fields that are read; `B` is its body, and a field that is not there
-- is none.
pub record ClientMessage (B : Type 0) : Type 0 where
  pub type : Text
  pub channel : Text
  pub body : B
  pub replay_from : Option ℕ
  pub replay_to : Option ℕ
  -- `clientMsg.__record__ === true`
  pub recorded : Bool

pub record ReplayConfig : Type 0 where
  pub replay_from : Option ℕ
  pub replay_to : Option ℕ
  pub report_frequency : Option ℕ
  pub time_period : Option Text
  pub asset : Option Text

pub data Effect (B : Type 0) : Type 0 where
  -- `app.publish("CLIENT_MESSAGE", { type: "CLIENT_MESSAGE", body })`
  publish_message : B → Effect B
  subscribe : Text → Effect B
  -- `new VixCalculator(config).fetchIndex()`, whose indices are stored where the flag is set
  replay : ReplayConfig → Bool → Effect B
  -- `socket.send` of the error topic_not_found
  topic_not_found : Effect B
  disconnect : Effect B

abbrev pub client_message : Text
client_message = codes "CLIENT_MESSAGE"

abbrev pub subscribe_message : Text
subscribe_message = codes "SUBSCRIBE"

abbrev pub text_same : Text → Text → Bool
text_same [] [] = true
text_same [] (y ∷ ys) = false
text_same (x ∷ xs) [] = false
text_same (x ∷ xs) (y ∷ ys) = nat_beq x y && text_same xs ys

abbrev pub begins : Text → Text → Bool
begins [] t = true
begins (x ∷ xs) [] = false
begins (x ∷ xs) (y ∷ ys) = nat_beq x y && begins xs ys

-- `D\/(BTC|ETH|SOL)` at the start
abbrev pub asset_follows : Text → Bool
asset_follows t = begins (codes "D/BTC") t || begins (codes "D/ETH") t || begins (codes "D/SOL") t

-- `\d*D\/(BTC|ETH|SOL)` at the start
unfoldable pub period_follows : Text → Bool
period_follows [] = false
period_follows (c ∷ t) = if is_digit c then period_follows t else asset_follows (c ∷ t)

-- `\d+D\/(BTC|ETH|SOL)` at the start
unfoldable pub digits_follow : Text → Bool
unfolding period_follows
digits_follow [] = false
digits_follow (c ∷ t) = is_digit c && period_follows t

abbrev pub skip : ℕ → Text → Text
skip zero t = t
skip (suc n) [] = []
skip (suc n) (c ∷ t) = skip n t

-- The validator's pattern `MFIV\/\d+D\/(BTC|ETH|SOL)`, which may match anywhere in the text.
unfoldable pub subscription_check : Text → Bool
unfolding digits_follow
subscription_check [] = false
subscription_check (c ∷ t) =
    (begins (codes "MFIV/") (c ∷ t) && digits_follow (skip 5 (c ∷ t))) || subscription_check t

abbrev pub part : ℕ → List Text → Option Text
part n [] = none
part zero (w ∷ ws) = some w
part (suc n) (w ∷ ws) = part n ws

abbrev pub is_live : Option ℕ → Option ℕ → Bool
is_live none none = true
is_live _ _ = false

module _ {B : Type 0} where
  -- A calculator of the period and asset that the channel names.
  abbrev pub replay_config : ClientMessage B → ReplayConfig
  replay_config m = record {
    replay_from = m.replay_from;
    replay_to = m.replay_to;
    report_frequency = if m.recorded then some 5 else none;
    time_period = part 1 (split b'/' m.channel);
    asset = part 2 (split b'/' m.channel);
  }

  unfoldable pub message : ClientMessage B → List (Effect B)
  unfolding subscription_check split
  message m =
      if text_same m.type client_message
      then publish_message m.body ∷ []
      else if text_same m.type subscribe_message
      then if subscription_check m.channel
        then if is_live m.replay_from m.replay_to
          then subscribe m.channel ∷ []
          else replay (replay_config m) m.recorded ∷ []
        else topic_not_found ∷ []
      else disconnect ∷ []

-- The channel of an index: the handler of `MFIV.*.*.index.created` publishes to it.
unfoldable pub created_channel : Text → Text → Text → Text
created_channel methodology time_period asset =
    to_upper methodology ++ (b'/' ∷ (to_upper time_period ++ (b'/' ∷ asset)))
