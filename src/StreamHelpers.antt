-- ===== src/StreamHelpers.antt =====
-- src/lib/utils/helpers.ts: which messages of a stream are asked for and pass, and the wait for the
-- database at the start of a service.
mod ContractTypes
mod Tests
use volatility_services.Prelude.{
  ℕ, zero, suc, ◌+◌, ◌≤◌, ◌<◌, ◌≡◌, ◌≢◌, refl, sym, ap, subst, ◌∙◌, nat_beq, inl, inr, String, Bool,
  true, false, ◌&&◌, ◌||◌, Option, none, some, List, [], ◌∷◌, ◌++◌, map, any, All, if◌then◌else◌,
  Bool-cases, Option-cases, arith,
}
use volatility_services.Prelude.Dict.{Dict, get, set, get-set}
use volatility_services.Prelude.Keys.{symbol_key, nat_beq_iff}
use volatility_services.Prelude.Strings.{starts_with}
use volatility_services.Prelude.Text.{Text, split, join, cons_head}

-- `parseContractType`: the parts of a text between its commas, or the default for an empty or undefined one.
unfoldable pub parse_contract_type : Option Text → List Text → List Text
parse_contract_type none default_contract_type = default_contract_type
parse_contract_type (some []) default_contract_type = default_contract_type
parse_contract_type (some (c ∷ t)) default_contract_type = split b',' (c ∷ t)

-- The options of a replay or a stream, the fields that are read.
pub record StreamOptions : Type 0 where
  pub exchange : String
  pub data_types : List String
  pub with_disconnect_messages : Bool

pub data Normalizer : Type 0 where
  normalize_trades normalize_options_summary : Normalizer

pub record Message : Type 0 where
  pub type : String
  pub exchange : String

abbrev pub includes : List String → String → Bool
includes types t = any (symbol_key.same t) types

unfoldable pub get_normalizers : List String → List Normalizer
unfolding starts_with
get_normalizers types =
    (if includes types "trade" || any (starts_with "trade_bar_") types
      then normalize_trades ∷ []
      else [])
    ++ (if includes types "option_summary" then normalize_options_summary ∷ [] else [])

unfoldable pub requested_type : String → String
unfolding starts_with
requested_type t =
    if starts_with "trade_bar_" t
    then "trade_bar"
    else if starts_with "book_snapshot_" t
    then "book_snapshot"
    else if starts_with "quote" t
    then "book_snapshot"
    else t

abbrev pub get_requested_data_types : StreamOptions → List String
get_requested_data_types o = map requested_type o.data_types

abbrev pub or_none : Option (List String) → List String
or_none none = []
or_none (some ts) = ts

-- The `reduce`: the types of every exchange, in the order of the options.
unfoldable pub requested_per_exchange :
    List StreamOptions → Dict String (List String) → Dict String (List String)
requested_per_exchange [] d = d
requested_per_exchange (o ∷ os) d =
    requested_per_exchange os
      (set o.exchange (or_none (get o.exchange d) ++ get_requested_data_types o) d)

-- The filter for the options; `none` where it throws, at an exchange that no option names. It looks for
-- the text "message.type".
unfoldable pub construct_data_type_filter : List StreamOptions → Message → Option Bool
unfolding requested_per_exchange
construct_data_type_filter options m =
    if symbol_key.same m.type "disconnect"
      && any (λ (o : StreamOptions). o.with_disconnect_messages) options
    then some true
    else elim (get m.exchange (requested_per_exchange options [])) [
      | none ↦ none
      | some types ↦ some (includes types "message.type")
    ]

pub data Wait : Type 0 where
  resolved rejected : ℕ → Wait

-- The timer of `waitForDatasourceReady`, whose timeout is a whole number of seconds, from the tick
-- `tick` on. `is_initialized` is the data source's at each tick.
unfoldable pub wait_from : (ℕ → Bool) → ℕ → ℕ → Wait
wait_from is_initialized zero tick = if is_initialized tick then resolved tick else rejected tick
wait_from is_initialized (suc counter) tick =
    let rest = wait_from is_initialized counter (suc tick) in
    if is_initialized tick then resolved tick else rest

unfoldable pub wait_for_datasource_ready : (ℕ → Bool) → ℕ → Wait
unfolding wait_from
wait_for_datasource_ready is_initialized seconds = wait_from is_initialized seconds 0

includes-append :
    (t : String) (xs ys : List String) → includes (xs ++ ys) t ≡ includes xs t || includes ys t
includes-append t [] ys = refl
includes-append t (x ∷ xs) ys = ground (arith, includes-append t xs ys)

-- No exchange has the text among its types.
abbrev IsUnasked : Dict String (List String) → Type 0
IsUnasked d = (exchange : String) → includes (or_none (get exchange d)) "message.type" ≡ false

requested-IsUnasked :
    (os : List StreamOptions) (d : Dict String (List String))
    → All (λ (o : StreamOptions). includes (get_requested_data_types o) "message.type" ≡ false) os
    → IsUnasked d
    → IsUnasked (requested_per_exchange os d)
unfolding requested_per_exchange
requested-IsUnasked [] d h k = k
requested-IsUnasked (o ∷ os) d h k =
    requested-IsUnasked os
      (set o.exchange (or_none (get o.exchange d) ++ get_requested_data_types o) d) h.1
      (λ e.
        let added : includes (or_none (get o.exchange d) ++ get_requested_data_types o)
              "message.type"
            ≡ false =
          includes-append "message.type" (or_none (get o.exchange d)) (get_requested_data_types o)
          ∙ ap (λ b. b || includes (get_requested_data_types o) "message.type") (k o.exchange)
          ∙ h.0 in
        elim (Bool-cases (symbol_key.same o.exchange e)) [
          | inl b ↦
              rw
                (
                  get-set o.exchange e (or_none (get o.exchange d) ++ get_requested_data_types o) d,
                  b,
                )
                added
          | inr b ↦
              rw
                (
                  get-set o.exchange e (or_none (get o.exchange d) ++ get_requested_data_types o) d,
                  b,
                )
                (k e)
        ])

abbrev answer : Option (List String) → Option Bool
answer none = none
answer (some types) = some (includes types "message.type")

refused :
    (o : Option (List String)) → includes (or_none o) "message.type" ≡ false → answer o ≢ some true
refused none h e = absurd (ground arith)
refused (some types) h e = absurd (ground (arith, h, e))

-- Whatever types the options ask for, except for one with the name "message.type": no message passes
-- that is not a disconnect, of the types that were asked for either.
pub construct_data_type_filter-refuses :
    (options : List StreamOptions) (m : Message)
    → All
        (λ (o : StreamOptions). includes (get_requested_data_types o) "message.type" ≡ false)
        options
    → symbol_key.same m.type "disconnect" ≡ false
    → construct_data_type_filter options m ≢ some true
unfolding construct_data_type_filter
construct_data_type_filter-refuses options m h k e =
    let found : Option (List String) = get m.exchange (requested_per_exchange options []) in
    let unasked = requested-IsUnasked options [] h (λ x. refl) m.exchange in
    let looked : construct_data_type_filter options m ≡ answer found =
      ap
        (λ b.
          if b && any (λ (o : StreamOptions). o.with_disconnect_messages) options
          then some true
          else answer found)
        k in
    refused found unasked (sym looked ∙ e)

-- The wait ends at a tick from `from` on that is the first at which the test holds, or at the last one,
-- where it holds at none.
abbrev pub IsFirst : (ℕ → Bool) → ℕ → ℕ → Wait → Type 0
IsFirst f from last (resolved t) =
    (f t ≡ true) × (t ≤ last) × ((i : ℕ) → from ≤ i → i < t → f i ≡ false)
IsFirst f from last (rejected t) = (t ≡ last) × ((i : ℕ) → from ≤ i → i ≤ last → f i ≡ false)

IsFirst-later :
    (f : ℕ → Bool) (from last : ℕ) (w : Wait)
    → f from ≡ false
    → IsFirst f (suc from) last w
    → IsFirst f from last w
IsFirst-later f from last (resolved t) h (holds, bound, before) = (
  holds,
  bound,
  λ i low high. elim (Bool-cases (nat_beq i from)) [
    | inl same ↦ ap f ((nat_beq_iff i from).0 same) ∙ h
    | inr other ↦ before i (ground arith) high
  ],
)
IsFirst-later f from last (rejected t) h (same, before) = (
  same,
  λ i low high. elim (Bool-cases (nat_beq i from)) [
    | inl at ↦ ap f ((nat_beq_iff i from).0 at) ∙ h
    | inr other ↦ before i (ground arith) high
  ],
)

wait_from-IsFirst :
    (f : ℕ → Bool) (counter tick : ℕ) → IsFirst f tick (tick + counter) (wait_from f counter tick)
unfolding wait_from
wait_from-IsFirst f zero tick = elim (Bool-cases (f tick)) [
  | inl h ↦ rw h (h, omega arith, λ i low high. absurd (omega arith))
  | inr h ↦ rw h (omega arith, λ i low high. let at : i ≡ tick = omega arith in ap f at ∙ h)
]
wait_from-IsFirst f (suc counter) tick = elim (Bool-cases (f tick)) [
  | inl h ↦ rw h (h, omega arith, λ i low high. absurd (omega arith))
  | inr h ↦
      let last : suc tick + counter ≡ tick + suc counter = omega arith in
      let rest = wait_from-IsFirst f counter (suc tick) in
      rw h (
        IsFirst-later f tick (tick + suc counter) (wait_from f counter (suc tick)) h
          (subst (λ n. IsFirst f (suc tick) n (wait_from f counter (suc tick))) last rest))
]

-- The wait for the data source ends at the latest at the tick with the number of its seconds, counted
-- from 0: it resolves at the first tick up to there at which the data source is initialized, and is
-- rejected at that last one where there is none.
pub wait_for_datasource_ready-IsFirst :
    (f : ℕ → Bool) (seconds : ℕ) → IsFirst f 0 seconds (wait_for_datasource_ready f seconds)
unfolding wait_for_datasource_ready
wait_for_datasource_ready-IsFirst f seconds =
    let last : 0 + seconds ≡ seconds = omega arith in
    subst (λ n. IsFirst f 0 n (wait_from f seconds 0)) last (wait_from-IsFirst f seconds 0)
