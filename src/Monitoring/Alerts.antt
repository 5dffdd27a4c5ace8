-- ===== src/Monitoring/Alerts.antt =====
-- src/aurax/l8_monitoring/alerts.py. A notifier's state is what it has delivered to.
use Prim.Native.String.{◌++◌}
use aura_x.Prelude.{
  Bool, true, false, not, ◌||◌, List, [], ◌∷◌, ◌++◌ as append, String, Option, none, some,
  if◌then◌else◌,
}
use aura_x.Prelude.Tests.{str_eq}

pub data AlertKind : Type 0 where
  fill breach regime_flip decay : AlertKind

-- the member's value
abbrev pub kind_value : AlertKind → String
kind_value fill = "fill"
kind_value breach = "breach"
kind_value regime_flip = "regime_flip"
kind_value decay = "decay"

abbrev pub icon : AlertKind → String
icon fill = "✅"
icon breach = "🛑"
icon regime_flip = "🔄"
icon decay = "📉"

abbrev pub format_alert : AlertKind → String → String
format_alert kind message = icon kind ++ (" [Aura-X][" ++ (kind_value kind ++ ("] " ++ message)))

-- `send` of the protocol, on a state `S`
pub record Notifier {ℓ} (S : Type ℓ) : Type ℓ where
  pub send : AlertKind → String → S → Bool × S

-- The structured log's lines: the kind and the text.
abbrev pub Log : Type 0
Log = List (AlertKind × String)

abbrev pub log_notifier : Notifier Log
log_notifier = record {
  send = λ kind message log. (true, append log ((kind, format_alert kind message) ∷ []));
}

abbrev pub null_notifier {ℓ} : {S : Type ℓ} → Notifier S
null_notifier = record { send = λ kind message s. (false, s) }

pub record TelegramConfig : Type 0 where
  pub bot_token : String
  pub chat_id : String

abbrev pub configured : TelegramConfig → Bool
configured c = not (str_eq c.bot_token "" || str_eq c.chat_id "")

-- Delivery by the transport, where one is injected, else by `post`, the HTTP request to the bot,
-- whose failure is a false answer.
abbrev pub telegram_notifier {ℓ} :
    {S : Type ℓ}
    → Option (String → S → Bool × S)
    → (TelegramConfig → String → S → Bool × S)
    → TelegramConfig
    → Notifier S
telegram_notifier (some transport) post c = record {
  send = λ kind message s. transport (format_alert kind message) s;
}
telegram_notifier none post c = record {
  send =
      λ kind message s. if configured c then post c (format_alert kind message) s else (false, s);
}
