-- ===== src/Data/Terminal.antt =====
-- `MT5Client` of src/aurax/l0_data/mt5_client.py. The terminal and its package are an interface: the
-- terminal's own state `S` is passed through its calls, and a call that gives no data answers `none`.
use aura_x.Prelude.{
  ℕ, Bool, true, false, Option, none, some, String, Result, ok, raise, Error, if◌then◌else◌, ◌&&◌,
}
use aura_x.Market.{Timeframe}
use aura_x.Data.Schema.{Payload}

-- the settings of the connection
pub record TerminalSettings : Type 0 where
  pub terminal_path : String
  pub login : ℕ
  pub password : String
  pub server : String

-- what `mt5.initialize` is given: a path and a login, each where it is set
pub record InitializeArguments : Type 0 where
  pub path : Option String
  pub account : Option (ℕ × String × String)

pub record Terminal {ℓ} (S V : Type ℓ) : Type ℓ where
  -- whether the package can be imported
  pub is_importable : Bool
  pub initialize : InitializeArguments → S → Bool × S
  pub shutdown : S → S
  pub copy_rates_range : String → String → ℕ → ℕ → S → Option (Payload V) × S
  pub copy_ticks_range : String → ℕ → ℕ → S → Option (Payload V) × S

-- the client's flag beside the terminal
pub record Client {ℓ} (S : Type ℓ) : Type ℓ where
  pub connected : Bool
  pub terminal : S

-- `_TIMEFRAME_CONST`
abbrev pub timeframe_const : Timeframe → String
timeframe_const Timeframe.m15 = "TIMEFRAME_M15"
timeframe_const Timeframe.h4 = "TIMEFRAME_H4"
timeframe_const Timeframe.d1 = "TIMEFRAME_D1"

-- an empty text and the login 0 are not set
abbrev pub initialize_arguments : (String → Bool) → TerminalSettings → InitializeArguments
initialize_arguments is_set cfg = record {
  path = if is_set cfg.terminal_path then some cfg.terminal_path else none;
  account = elim cfg.login [ ℕ.zero ↦ none | ℕ.suc n ↦ some (ℕ.suc n, cfg.password, cfg.server) ];
}

module _ {ℓ} {S V : Type ℓ} (mt5 : Terminal S V) (is_set : String → Bool)
    (settings : TerminalSettings) where
  -- `connect`, which is `__enter__` as well
  unfoldable pub connect : Client S → Result (Unit {0}) × Client S
  connect c =
      let answer = mt5.initialize (initialize_arguments is_set settings) c.terminal in
      if mt5.is_importable
      then if answer.0
        then (ok tt, record { connected = true; terminal = answer.1 })
        else (raise Error.runtime_error, record c { terminal = answer.1 })
      else (raise Error.runtime_error, c)

  -- `shutdown`, which is `__exit__` as well
  unfoldable pub shutdown : Client S → Client S
  shutdown c =
      if c.connected && mt5.is_importable
      then record { connected = false; terminal = mt5.shutdown c.terminal }
      else c

  -- `if not self._connected: self.connect()`, and what follows
  abbrev pub when_connected {κ} :
      {A : Type κ} → (Client S → Result A × Client S) → Client S → Result A × Client S
  when_connected next c =
      let (r, c') = if c.connected then (ok tt, c) else connect c in
      elim r [ ok done ↦ next c' | raise e ↦ (raise e, c') ]

  -- the data of an answer; none is an error
  abbrev pub given_data : Option (Payload V) × S → Client S → Result (Payload V) × Client S
  given_data (none, s) c = (raise Error.runtime_error, record c { terminal = s })
  given_data (some payload, s) c = (ok payload, record c { terminal = s })

  unfoldable pub copy_rates : String → Timeframe → ℕ → ℕ → Client S → Result (Payload V) × Client S
  copy_rates symbol timeframe start end c =
      if mt5.is_importable
      then when_connected
          (λ c.
            given_data
              (mt5.copy_rates_range symbol (timeframe_const timeframe) start end c.terminal) c)
          c
      else (raise Error.runtime_error, c)

  unfoldable pub copy_ticks : String → ℕ → ℕ → Client S → Result (Payload V) × Client S
  copy_ticks symbol start end c =
      if mt5.is_importable
      then when_connected (λ c. given_data (mt5.copy_ticks_range symbol start end c.terminal) c) c
      else (raise Error.runtime_error, c)
