-- ===== src/Http/Routes/Access.antt =====
-- The check of a session in the routes of VirtualGateway/devcontrol_gateway/app.py, and who may register
-- a device.
use dev_control_open_harmony.Prelude.{◌≡◌, String, Option, arith, inl, inr}
use dev_control_open_harmony.Errors.{Error, raise, Result-cases}
use dev_control_open_harmony.Sessions.{Primitives}
use dev_control_open_harmony.Validation.Requests.{DeviceRegistrationRequest}
use dev_control_open_harmony.Certificates.{Authority, verify}
use dev_control_open_harmony.Service.Management.{register_device}
use dev_control_open_harmony.Http.Routes.{App, extract_bearer, require_session, register_route}

module _ (p : Primitives) (authorization : Option String) (app : App) where
  -- The check of a session touches nothing but the sessions.
  pub require_session-rest :
      ((require_session p authorization app).1.service ≡ app.service)
      × ((require_session p authorization app).1.sent ≡ app.sent)
  unfolding require_session
  require_session-rest = elim (Result-cases (extract_bearer authorization)) [
    | inl refused ↦ (ground arith, ground arith)
    | inr found ↦ (ground arith, ground arith)
  ]

  -- A registration whose certificate is not verified changes nothing and is not broadcast.
  pub register_route-unverified :
      (a : Authority) (q : DeviceRegistrationRequest) (e : Error)
      → verify a q ≡ raise e
      → ((register_route p a authorization q app).1.service ≡ app.service)
        × ((register_route p a authorization q app).1.sent ≡ app.sent)
  unfolding register_route register_device
  register_route-unverified a q e h = elim (Result-cases (require_session p authorization app).0) [
    | inl refused ↦ (ground (arith, require_session-rest), ground (arith, require_session-rest))
    | inr found ↦ (ground (arith, require_session-rest), ground (arith, require_session-rest))
  ]
