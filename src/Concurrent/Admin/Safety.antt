-- ===== src/Concurrent/Admin/Safety.antt =====
-- The operations of khazina/internal/admin/service.go among other programs.
use saftaja.Prelude.{◌≡◌, refl, none, ◌==◌, length, Bool-cases, inl, inr}
use saftaja.Domain.{Bytes}
use saftaja.Env.{Env}
use saftaja.Exec.{World, Sql, gives, Stamp, write, read_nonce}
use saftaja.Exec.After.{Runs, bind-After, done, lift-After, raise-After, write-After}
use saftaja.Connectors.Crypto.{encrypt, key_size}
use saftaja.Store.Rows.{Db}
use saftaja.Store.Admin
use saftaja.Admin.Types.{
  Service, CreateOrganizationRequest, CreateProjectRequest, CreateGatewayAccountRequest,
  CreateInvoiceRequest,
}
use saftaja.Ledger.Inv.{Inv}
use saftaja.Ledger.Keeps.{other_tables}
use saftaja.Ledger.Billing.{bill-Inv}
use saftaja.Ledger.Inserts.{
  insert_organization-gives, insert_project-gives, insert_account-gives, insert_invoice-gives,
}
use saftaja.Concurrent.Admin.{
  create_organization, create_project, create_gateway_account, create_invoice,
}
use saftaja.Concurrent.Change.{Move, still}
use saftaja.Concurrent.Change.Inserts.{aside, billed}
use saftaja.Concurrent.Safe.{Safe}
use saftaja.Concurrent.Rules.{
  Left, Gave, Quiet, step-Safe, quiet_renamed-Safe, ends-Safe, nothing_known,
}
use saftaja.Concurrent.Ending.{Within, step-Within, ends-Within}

module _ (env : Env) where
  -- One insertion.
  insert-Gave :
      {X : Type 0} (op : Stamp → Db → Sql (X × Db)) (w : World)
      → Inv w.db
      → ((st : Stamp) (a : X) (d : Db) → op st w.db ≡ gives (a, d) → Move none none w.db d)
      → Runs
          (Left none nothing_known w.db)
          (Gave none (λ (_ : X). none) (λ _. nothing_known) w.db)
          (write env op w)
  insert-Gave op w inv h =
      write-After env op w (still none w.db inv, tt, tt)
        λ st a d row. ((h st a d row, tt, tt), (h st a d row, tt, tt))

  encrypt-Quiet : (plaintext key : Bytes) → Quiet (encrypt env plaintext key)
  unfolding encrypt read_nonce
  encrypt-Quiet plaintext key w = elim (Bool-cases (length key == key_size)) [
    | inl y ↦ rw y (bind-After _ _ w (done _ _ (lift-After _ _ refl λ a _. refl)))
    | inr n ↦ rw n (raise-After _ _ refl)
  ]

  module _ (s : Service) where
    pub create_organization-Safe :
        (req : CreateOrganizationRequest) → Safe none nothing_known (create_organization env s req)
    unfolding create_organization Admin.create_organization
    create_organization-Safe req =
        step-Safe none nothing_known (λ _. none) (λ _. nothing_known) _ _ _
          (λ w inv held p. insert-Gave _ w inv λ st a d row.
            let (fresh, e) = insert_organization-gives env st w.db d req.name a row in
            rw e (aside none w.db _ (other_tables inv) refl refl refl))
          (λ a d d' c x. x) λ a. tt

    pub create_project-Safe :
        (req : CreateProjectRequest) → Safe none nothing_known (create_project env s req)
    unfolding create_project Admin.create_project
    create_project-Safe req =
        step-Safe none nothing_known (λ _. none) (λ _. nothing_known) _ _ _
          (λ w inv held p. insert-Gave _ w inv λ st a d row.
            let (fresh, free, e) = insert_project-gives env st w.db d _ a row in
            rw e (aside none w.db _ (other_tables inv) refl refl refl))
          (λ a d d' c x. x) λ a. tt

    pub create_gateway_account-Safe :
        (req : CreateGatewayAccountRequest)
        → Safe none nothing_known (create_gateway_account env s req)
    unfolding create_gateway_account Admin.create_gateway_account
    create_gateway_account-Safe req = ends-Safe none nothing_known _ _ _ λ json.
        quiet_renamed-Safe none nothing_known _ (encrypt-Quiet json s.encryption_key)
          (λ d d' c x. x) _ _
          λ encrypted.
            step-Safe none nothing_known (λ _. none) (λ _. nothing_known) _ _ _
              (λ w inv held p. insert-Gave _ w inv λ st a d row.
                let gave = insert_account-gives env st w.db d _ a row in
                rw gave.1 (aside none w.db _ (other_tables inv) refl refl refl))
              (λ a d d' c x. x) λ a. tt

    pub create_invoice-Safe :
        (req : CreateInvoiceRequest) → Safe none nothing_known (create_invoice env s req)
    unfolding create_invoice Admin.create_invoice
    create_invoice-Safe req = ends-Safe none nothing_known _ _ _ λ amount.
        step-Safe none nothing_known (λ _. none) (λ _. nothing_known) _ _ _
          (λ w inv held p. insert-Gave _ w inv λ st v d row.
            let ins = insert_invoice-gives env st w.db d _ v row in
            rw ins.tables
              (billed w.db v ins.fresh none (bill-Inv w.db v inv ins.fresh (rw ins.status refl))))
          (λ a d d' c x. x) λ a. tt

    pub create_organization-Within :
        (req : CreateOrganizationRequest) → Within 1 (create_organization env s req)
    unfolding create_organization
    create_organization-Within req = step-Within 0 _ _ _ λ a. tt

    pub create_project-Within : (req : CreateProjectRequest) → Within 1 (create_project env s req)
    unfolding create_project
    create_project-Within req = step-Within 0 _ _ _ λ a. tt

    pub create_gateway_account-Within :
        (req : CreateGatewayAccountRequest) → Within 2 (create_gateway_account env s req)
    unfolding create_gateway_account
    create_gateway_account-Within req =
        ends-Within 2 _ _ _ λ json. step-Within 1 _ _ _ λ encrypted. step-Within 0 _ _ _ λ a. tt

    pub create_invoice-Within : (req : CreateInvoiceRequest) → Within 1 (create_invoice env s req)
    unfolding create_invoice
    create_invoice-Within req = ends-Within 1 _ _ _ λ amount. step-Within 0 _ _ _ λ a. tt
