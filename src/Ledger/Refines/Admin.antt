-- ===== src/Ledger/Refines/Admin.antt =====
-- The operations of khazina/internal/admin/service.go as steps of the specification.
use saftaja.Prelude.{◌≡◌, refl, ap, ◌==◌, length, Option, none, some, Bool-cases, inl, inr}
use saftaja.Domain.{Uuid, Bytes}
use saftaja.Env.{Env}
use saftaja.Errors.{Error}
use saftaja.Exec.{State, World, Exec, gives, Stamp, Sql, write, on_error, read_nonce, ◌>>=◌}
use saftaja.Exec.After.{
  Runs, bind-After, on_error-After, pure-After, raise-After, lift-After, write-After, Runs-final,
  Runs-map, done,
}
use saftaja.Store.Rows.{Db}
use saftaja.Store.Admin
use saftaja.Connectors.Crypto.{encrypt, key_size}
use saftaja.Admin.Types.{
  Service, CreateOrganizationRequest, CreateProjectRequest, CreateGatewayAccountRequest,
  CreateInvoiceRequest,
}
use saftaja.Admin.Service.{
  create_organization, create_project, create_gateway_account, create_invoice,
}
use saftaja.Ledger.Step.{
  Step, History, start, next, add_organization, add_project, add_account, bill, with_tables, Of,
}
use saftaja.Ledger.Inserts.{
  insert_organization-gives, insert_project-gives, insert_account-gives, insert_invoice-gives,
}

module _ (env : Env) (owner : Option Uuid) (w0 : World) where
  abbrev From : State → Type 0
  From t = History env owner w0.state t

  abbrev Reached : {A : Type 0} → A → World → Type 0
  Reached _ v = From v.state

  -- a statement that is one step, and what wraps its error and its row
  inserted :
      {A B : Type 0} (wrap : Error → Error) (op : Stamp → Db → Sql (A × Db))
      (next_call : A → Exec B) (w : World)
      → From w.state
      → ((st : Stamp) (a : A) (d : Db)
          → op st w.db ≡ gives (a, d)
          → Step env owner w.state (with_tables w.state d))
      → ((a : A) (v : World) → From v.state → Runs From Reached (next_call a v))
      → Runs From Reached ((on_error wrap (write env op) >>= next_call) w)
  inserted wrap op next_call w h step k = bind-After _ _ w (
      on_error-After _ _ w (
        write-After env op w h
          λ st a d row. (next h (step st a d row), k a _ (next h (step st a d row)))))

  -- Encryption changes no table.
  encrypt-Runs :
      (plaintext key : Bytes) (w : World)
      → From w.state
      → Runs From Reached (encrypt env plaintext key w)
  unfolding encrypt read_nonce
  encrypt-Runs plaintext key w h = elim (Bool-cases (length key == key_size)) [
    | inl y ↦ rw y (bind-After _ _ w (done _ _ (lift-After _ _ h λ a _. h)))
    | inr n ↦ rw n (raise-After _ _ h)
  ]

  module _ (s : Service) where
    organization-Runs :
        (req : CreateOrganizationRequest)
        → owner ≡ none
        → Runs From Reached (create_organization env s req w0)
    unfolding create_organization Admin.create_organization
    organization-Runs req whose =
        inserted _ _ _ w0 start
          (λ st o d row.
            let (fresh, e) = insert_organization-gives env st w0.db d req.name o row in
            add_organization o fresh whose (ap (with_tables w0.state) e))
          (λ o v h. pure-After _ _ h)

    project-Runs :
        (req : CreateProjectRequest)
        → owner ≡ none
        → Runs From Reached (create_project env s req w0)
    unfolding create_project Admin.create_project
    project-Runs req whose =
        inserted _ _ _ w0 start
          (λ st p d row.
            let (fresh, free, e) = insert_project-gives env st w0.db d _ p row in
            add_project p fresh free whose (ap (with_tables w0.state) e))
          (λ p v h. pure-After _ _ h)

    account-Runs :
        (req : CreateGatewayAccountRequest)
        → Of owner req.project_id
        → Runs From Reached (create_gateway_account env s req w0)
    unfolding create_gateway_account Admin.create_gateway_account
    account-Runs req whose = bind-After _ _ w0 (
        on_error-After _ _ w0 (
          lift-After _ w0 start λ json _. bind-After _ _ w0 (
            on_error-After _ _ w0 (
              Runs-map
                (λ encrypted v h.
                  inserted _ _ _ v h
                    (λ st a d row.
                      let gave = insert_account-gives env st v.db d _ a row in
                      add_account a gave.0 (rw gave.3 whose) (ap (with_tables v.state) gave.1))
                    (λ a u k. pure-After _ _ k))
                (encrypt-Runs json s.encryption_key w0 start)))))

    invoice-Runs :
        (req : CreateInvoiceRequest)
        → Of owner req.project_id
        → Runs From Reached (create_invoice env s req w0)
    unfolding create_invoice Admin.create_invoice
    invoice-Runs req whose = bind-After _ _ w0 (
        on_error-After _ _ w0 (
          lift-After _ w0 start λ amount _.
            inserted _ _ _ w0 start
              (λ st v d row.
                let ins = insert_invoice-gives env st w0.db d _ v row in
                bill v ins.fresh ins.project (rw ins.status refl) (rw ins.own_project whose)
                  (ap (with_tables w0.state) ins.tables))
              (λ v u k. pure-After _ _ k)))

-- A call of `Service` of khazina/internal/admin/service.go.
pub data AdminCall : Type 0 where
  organization : CreateOrganizationRequest → AdminCall
  project : CreateProjectRequest → AdminCall
  account : CreateGatewayAccountRequest → AdminCall
  invoice : CreateInvoiceRequest → AdminCall

-- The project that a call is made for; a new organization or project is for none.
abbrev pub project_of_admin : AdminCall → Option Uuid
project_of_admin (AdminCall.organization req) = none
project_of_admin (AdminCall.project req) = none
project_of_admin (AdminCall.account req) = some req.project_id
project_of_admin (AdminCall.invoice req) = some req.project_id

module _ (env : Env) (s : Service) where
  -- What it leaves behind, whether it ends in a result or an error.
  unfoldable pub administer : AdminCall → World → World
  administer (AdminCall.organization req) w = (create_organization env s req w).1
  administer (AdminCall.project req) w = (create_project env s req w).1
  administer (AdminCall.account req) w = (create_gateway_account env s req w).1
  administer (AdminCall.invoice req) w = (create_invoice env s req w).1

  pub administer-History :
      (c : AdminCall) (w : World) → History env (project_of_admin c) w.state (administer c w).state
  unfolding administer
  administer-History (AdminCall.organization req) w =
      Runs-final (organization-Runs env none w s req refl)
  administer-History (AdminCall.project req) w = Runs-final (project-Runs env none w s req refl)
  administer-History (AdminCall.account req) w =
      Runs-final (account-Runs env (some req.project_id) w s req refl)
  administer-History (AdminCall.invoice req) w =
      Runs-final (invoice-Runs env (some req.project_id) w s req refl)
