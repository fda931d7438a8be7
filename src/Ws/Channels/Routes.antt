-- ===== src/Ws/Channels/Routes.antt =====
-- The channel that an index is published to is one that a client can subscribe to or replay
-- (services/ws.service.ts).
use volatility_services.Prelude.{
  ℕ, ◌≡◌, refl, ap, ◌∙◌, ◌⊎◌, inl, inr, true, false, none, some, [], ◌∷◌, ◌++◌, All, nat_beq,
  if◌then◌else◌, arith,
}
use volatility_services.Prelude.Text.{upper, to_upper, Text, codes, split, is_digit}
use volatility_services.Ws.Channels.{
  ClientMessage, subscribe, replay, subscribe_message, asset_follows, period_follows, digits_follow,
  subscription_check, is_live, message, created_channel,
}

abbrev pub AllDigits : Text → Type 0
AllDigits = All (λ (c : ℕ). is_digit c ≡ true)

abbrev pub IsAsset : Text → Type 0
IsAsset t = (t ≡ codes "BTC") ⊎ ((t ≡ codes "ETH") ⊎ (t ≡ codes "SOL"))

upper_digit : (c : ℕ) → is_digit c ≡ true → upper c ≡ c
upper_digit c h = ground arith

-- Digits and the letter of a day, with the channel's rest behind them.
period-follows :
    (ds : Text) (d : ℕ) (rest : Text)
    → AllDigits ds
    → upper d ≡ b'D'
    → period_follows (to_upper (ds ++ (d ∷ [])) ++ rest) ≡ asset_follows (b'D' ∷ rest)
unfolding period_follows
period-follows [] d rest h day = rw day refl
period-follows (c ∷ ds) d rest h day =
    rw (upper_digit c h.0, h.0) (period-follows ds d rest h.1 day)

asset_follows-asset : (asset : Text) → IsAsset asset → asset_follows (b'D' ∷ b'/' ∷ asset) ≡ true
asset_follows-asset asset (inl h) = rw h refl
asset_follows-asset asset (inr (inl h)) = rw h refl
asset_follows-asset asset (inr (inr h)) = rw h refl

abbrev NoSlash : Text → Type 0
NoSlash = All (λ (c : ℕ). nat_beq c b'/' ≡ false)

split-word : (w : Text) → NoSlash w → split b'/' w ≡ w ∷ []
unfolding split
split-word [] h = refl
split-word (c ∷ w) h = rw (h.0, split-word w h.1) refl

split-words : (w rest : Text) → NoSlash w → split b'/' (w ++ (b'/' ∷ rest)) ≡ w ∷ split b'/' rest
unfolding split
split-words [] rest h = refl
split-words (c ∷ w) rest h = rw (h.0, split-words w rest h.1) refl

asset-NoSlash : (asset : Text) → IsAsset asset → NoSlash asset
asset-NoSlash asset (inl h) = rw h (refl, (refl, (refl, tt)))
asset-NoSlash asset (inr (inl h)) = rw h (refl, (refl, (refl, tt)))
asset-NoSlash asset (inr (inr h)) = rw h (refl, (refl, (refl, tt)))

period-NoSlash :
    (ds : Text) (d : ℕ) → AllDigits ds → upper d ≡ b'D' → NoSlash (to_upper (ds ++ (d ∷ [])))
period-NoSlash [] d h day = (rw day refl, tt)
period-NoSlash (c ∷ ds) d h day = (ground (arith, h.0), period-NoSlash ds d h.1 day)

abbrev channel : ℕ → Text → ℕ → Text → Text
channel c ds d asset = created_channel (codes "MFIV") ((c ∷ ds) ++ (d ∷ [])) asset

channel-check :
    (c d : ℕ) (ds asset : Text)
    → AllDigits (c ∷ ds)
    → upper d ≡ b'D'
    → IsAsset asset
    → subscription_check (channel c ds d asset) ≡ true
unfolding subscription_check digits_follow created_channel
channel-check c d ds asset digits day known =
    let head : is_digit (upper c) ≡ true = ap is_digit (upper_digit c digits.0) ∙ digits.0 in
    rw (head, period-follows ds d (b'/' ∷ asset) digits.1 day, asset_follows-asset asset known) refl

channel-parts :
    (c d : ℕ) (ds asset : Text)
    → AllDigits (c ∷ ds)
    → upper d ≡ b'D'
    → IsAsset asset
    → split b'/' (channel c ds d asset)
      ≡ codes "MFIV" ∷ to_upper ((c ∷ ds) ++ (d ∷ [])) ∷ asset ∷ []
unfolding created_channel
channel-parts c d ds asset digits day known =
    split-words (codes "MFIV") (to_upper ((c ∷ ds) ++ (d ∷ [])) ++ (b'/' ∷ asset))
      (refl, (refl, (refl, (refl, tt))))
    ∙ ap (λ ws. codes "MFIV" ∷ ws)
        (split-words (to_upper ((c ∷ ds) ++ (d ∷ []))) asset (period-NoSlash (c ∷ ds) d digits day))
    ∙ ap (λ ws. codes "MFIV" ∷ to_upper ((c ∷ ds) ++ (d ∷ [])) ∷ ws)
        (split-word asset (asset-NoSlash asset known))

module _ {B : Type 0} where
  -- A client that asks for the channel to which an MFIV index of some days and of a known asset is
  -- published is subscribed to exactly that channel where it names no dates; where it names one, it is
  -- sent a replay of the index's own period, in upper case, and asset, which is stored where the message
  -- asks for that.
  pub message-created_channel :
      (m : ClientMessage B) (c d : ℕ) (ds asset : Text)
      → AllDigits (c ∷ ds)
      → upper d ≡ b'D'
      → IsAsset asset
      → m.type ≡ subscribe_message
      → m.channel ≡ created_channel (codes "MFIV") ((c ∷ ds) ++ (d ∷ [])) asset
      → message m ≡ (
          if is_live m.replay_from m.replay_to
          then subscribe (created_channel (codes "MFIV") ((c ∷ ds) ++ (d ∷ [])) asset) ∷ []
          else replay
              (record {
                replay_from = m.replay_from;
                replay_to = m.replay_to;
                report_frequency = if m.recorded then some 5 else none;
                time_period = some (to_upper ((c ∷ ds) ++ (d ∷ [])));
                asset = some asset;
              })
              m.recorded
            ∷ [])
  unfolding message
  message-created_channel m c d ds asset digits day known kind named =
      rw
        (
          message,
          kind,
          named,
          channel-check c d ds asset digits day known,
          channel-parts c d ds asset digits day known,
        )
        refl
