-- ===== src/Deployment.antt =====
-- Services on the repositories of internal/postgres, as cmd/api/main.go puts them together: the
-- handlers of internal/contactapi that take an address or its codes away, behind the middleware.
use authenticator.Common.{◌≡◌, refl, sym, subst, Any, some, Text}
use authenticator.Effect.{ok, Exec}
use authenticator.Effect.Ensures.{Ensures, Ensures-bind}
use authenticator.Domain.{User, Token, DeliveryMethod, Reply, jwt_authorized, default_tfa}
use authenticator.System.{System}
use authenticator.Token.Validate.{validate}
use authenticator.Http.{Request, Handler, get_user_id, get_token, auth_middleware}
use authenticator.Http.Middleware.{auth_middleware_sound}
use authenticator.TokenApi.{reissue}
use authenticator.TokenApi.Refreshed.{Reissued, reissue-Reissued}
use authenticator.ContactApi
use authenticator.ContactApi.{decode_deactivate_request}
use authenticator.Postgres.{Database, State}
use authenticator.Postgres.Users.{remove_delivery_method, disable_otp}
use authenticator.Postgres.Records.{manager}
use authenticator.Postgres.SecondFactor.{HasDefault, removal_keeps_factor, disabling_keeps_factor}

-- What a user gives up: an address, or the codes that are sent to it.
pub data Change : Type 0 where
  removal disabling : Change

module _ {W : Type 0} (db : Database W) (sys : System (State W)) where
  abbrev pub deployed : System (State W)
  deployed = record sys { repos = manager db sys }

  abbrev pub handler_of : Change → Handler (State W)
  handler_of removal = ContactApi.remove deployed
  handler_of disabling = ContactApi.disable deployed

  abbrev pub statement_of : Change → Text → DeliveryMethod → Exec (State W) User
  statement_of removal = remove_delivery_method db sys
  statement_of disabling = disable_otp db sys

  -- Postgres changed the user, and the reply has a token with the user's default second factor.
  pub record FactorOffered (c : Change) (user_id : Text) (old : Token) (reply : Reply)
      : Type 0 where
    pub user : User
    pub method : DeliveryMethod
    pub u : State W
    pub v : State W
    pub changed : statement_of c user_id method u ≡ ok user v
    pub reissued : Reissued deployed old user reply
    pub offered : Any (λ o. o ≡ default_tfa user) reissued.token.tfa_options

  statement-HasDefault :
      (c : Change) (user_id : Text) (m : DeliveryMethod) (user : User) (d d' : State W)
      → statement_of c user_id m d ≡ ok user d'
      → HasDefault user
  statement-HasDefault removal user_id m user d d' h =
      (removal_keeps_factor db sys user_id m user d d' h).0.0
  statement-HasDefault disabling user_id m user d d' h =
      (disabling_keeps_factor db sys user_id m user d d' h).0

  offered_after :
      (c : Change) (r : Request) (old : Token) (m : DeliveryMethod) (user : User) (u v : State W)
      → get_token r ≡ some old
      → statement_of c (get_user_id r) m u ≡ ok user v
      → Ensures (reissue deployed r user v) (λ reply _. FactorOffered c (get_user_id r) old reply)
  offered_after c r old m user u v held changed reply v' answered =
      let made = reissue-Reissued deployed r user old v held reply v' answered in
      record {
        user = user;
        method = m;
        u = u;
        v = v;
        changed = changed;
        reissued = made;
        offered =
            subst (Any (λ o. o ≡ default_tfa user)) (sym made.options)
              (statement-HasDefault c (get_user_id r) m user u v changed);
      }

  handler-FactorOffered :
      (c : Change) (r : Request) (old : Token) (d : State W)
      → get_token r ≡ some old
      → Ensures (handler_of c r d) (λ reply _. FactorOffered c (get_user_id r) old reply)
  unfolding ContactApi.remove ContactApi.disable
  handler-FactorOffered removal r old d held = Ensures-bind _ _ λ req u decoded.
      Ensures-bind _ _
        λ user v changed. offered_after removal r old req.delivery_method user u v held changed
  handler-FactorOffered disabling r old d held = Ensures-bind _ _ λ req u decoded.
      Ensures-bind _ _
        λ user v changed. offered_after disabling r old req.delivery_method user u v held changed

  abbrev pub Offered : Change → Request → State W → Reply → Type 0
  Offered c r d reply =
      (old : Token) × (client_id : Text) × (v : State W) × (r.client_id_cookie ≡ some client_id)
      × (validate deployed r.authorization client_id d ≡ ok old v)
      × (old.state ≡ jwt_authorized)
      × FactorOffered c old.user_id old reply

  -- If a request to remove an address, or to disable its codes, returns from behind the middleware,
  -- then its header and client ID cookie were accepted as an authorized token; Postgres made the
  -- change for the user of that token; and the reply is a signed token for the user so changed, with
  -- the ID of the request's token, among whose second factors is the user's default one.
  pub change_offers_factor :
      (c : Change) (r : Request) (reply : Reply) (d d' : State W)
      → auth_middleware deployed (handler_of c) jwt_authorized r d ≡ ok reply d'
      → Offered c r d reply
  change_offers_factor c r reply d d' returned =
      let (old, client_id, v, cookie, accepted, state, ran) =
        auth_middleware_sound deployed (handler_of c) jwt_authorized r reply d d' returned in
      (
        old,
        client_id,
        v,
        cookie,
        accepted,
        state,
        handler-FactorOffered c (record r { ctx_user_id = some old.user_id; ctx_token = some old })
            old v refl reply d' ran,
      )
