-- ===== src/Http/Responses.antt =====
-- What the routes of VirtualGateway/devcontrol_gateway/app.py say of errors and of the transports.
use dev_control_open_harmony.Prelude.{ℕ, String, Bool, true, Option, none, some, List, [], ◌∷◌}
use dev_control_open_harmony.Errors.{Error, gateway, python, ErrorCode}

-- `gateway_error_handler`: status, code, message and `Retry-After`; another exception is a 500.
pub record ErrorResponse : Type 0 where
  pub status : ℕ
  pub code : Option ErrorCode
  pub message : String
  pub retry_after : Option ℕ

unfoldable pub error_response : Error → ErrorResponse
error_response (gateway e) = record {
  status = e.status_code;
  code = some e.code;
  message = e.message;
  retry_after = e.retry_after_seconds;
}
error_response (python e) = record {
  status = 500;
  code = none;
  message = "Internal Server Error";
  retry_after = none;
}

pub record Capability : Type 0 where
  pub id : String
  pub enabled : Bool
  pub mode : String
  pub security : String

-- `_transport_capabilities`
unfoldable pub transport_capabilities : Bool → List Capability
transport_capabilities mqtt_enabled =
    record {
      id = "https-rest";
      enabled = true;
      mode = "request-response";
      security = "TLS 1.2+, Bearer, AES-256-GCM commands";
    }
    ∷ record {
      id = "wss";
      enabled = true;
      mode = "bidirectional-events";
      security = "TLS 1.2+, Bearer, AES-256-GCM commands";
    }
    ∷ record {
      id = "https-sse";
      enabled = true;
      mode = "server-events";
      security = "TLS 1.2+, Bearer";
    }
    ∷ record {
      id = "mqtt5-tls";
      enabled = mqtt_enabled;
      mode = "publish-subscribe";
      security = "TLS 1.2+, broker authentication, AES-256-GCM commands";
    }
    ∷ []
