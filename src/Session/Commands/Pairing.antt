-- ===== src/Session/Commands/Pairing.antt =====
-- Pairing by token: `set_auth_token` on one machine, and the Hello of another
-- (apps/tailkvm-ui/src-tauri/src/session/mod.rs and session/wire.rs).
use Prim.Native.String.{String}
use tail_kvm.Base.{◌≡◌, ◌↔◌, ◌⊎◌, true, some, arith}
use tail_kvm.Base.Dict.{string_eq}
use tail_kvm.Session.Receiver.Report.{hello_authorized}
use tail_kvm.Session.Trim.{trim}
use tail_kvm.Session.Commands.{App, set_auth_token, usable_token}

-- A receiver whose token was set to `a` lets the Hello of a controller whose token was set to `b` pass
-- exactly if `a` is blank, or both tokens are the same up to the white space around them.
pub hello_authorized-set_auth_token :
    (a b : String) (s t : App)
    → (hello_authorized
          (set_auth_token (some a) s).auth_token
          (set_auth_token (some b) t).auth_token
        ≡ true)
      ↔ ((trim a ≡ "") ⊎ (trim a ≡ trim b))
unfolding hello_authorized set_auth_token usable_token
hello_authorized-set_auth_token a b s t = ground (
  arith,
  string_eq.beq_iff (trim a) "",
  string_eq.beq_iff (trim b) "",
  string_eq.beq_iff (trim b) (trim a),
)
