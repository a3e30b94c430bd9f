-- ===== src/Keeper/Chain/Frame.antt =====
-- No call but AppendTicket writes where the tickets and their counter stand.
use halborn.Prelude.{◌≡◌, ◌∙◌, refl, Bytes, ◌++◌, Option-cases, inl, inr}
use halborn.Types.Keys.{ticket_key, params_key}
use halborn.Sdk.Bank.{Reply}
use halborn.Sdk.Env.{Sdk, IsSdk}
use halborn.Keeper.Exec.{Outcome, Error, insufficient_funds}
use halborn.Keeper.State.{State, bank_call, bank_call_unchecked}
use halborn.Keeper.Holds.{
  Holds, on_return, Holds-or_panic, Holds-bank_call, Holds-bank_call_unchecked,
}
use halborn.Keeper.Params.{get_params, read_params}
use halborn.Keeper.Requests.{request_key}

module _ (x : Sdk) where
  -- The keys that begin as those of the tickets and of the counter do read as before.
  pub record Frame (kv kv' : x.kv.Store) : Type 0 where
    pub same : (rest : Bytes) → x.kv.get kv' (ticket_key ++ rest) ≡ x.kv.get kv (ticket_key ++ rest)

  pub Frame-refl : (kv : x.kv.Store) → Frame kv kv
  Frame-refl kv = record { same = λ rest. refl }

  pub Frame-trans : {a b c : x.kv.Store} → Frame a b → Frame b c → Frame a c
  Frame-trans h k = record { same = λ rest. k.same rest ∙ h.same rest }

  -- The call leaves these keys as they are, if it returns.
  abbrev pub Kept : {A : Type 0} → x.kv.Store → Outcome A × State x → Type 0
  Kept kv r = Holds (λ a s'. Frame kv s'.kv) r

module _ (x : Sdk) (laws : IsSdk x) where
  pub Frame-set_request :
      (kv : x.kv.Store) (account bz : Bytes) → Frame x kv (x.kv.set kv (request_key account) bz)
  Frame-set_request kv account bz = record {
    same = λ rest. laws.kv_laws.get-set kv (request_key account) (ticket_key ++ rest) bz;
  }

  pub Frame-delete_request :
      (kv : x.kv.Store) (account : Bytes) → Frame x kv (x.kv.delete kv (request_key account))
  Frame-delete_request kv account = record {
    same = λ rest. laws.kv_laws.get-delete kv (request_key account) (ticket_key ++ rest);
  }

  pub Frame-set_params : (kv : x.kv.Store) (bz : Bytes) → Frame x kv (x.kv.set kv params_key bz)
  Frame-set_params kv bz = record {
    same = λ rest. laws.kv_laws.get-set kv params_key (ticket_key ++ rest) bz;
  }

  module _ (kv : x.kv.Store) where
    pub get_params-Kept : (s : State x) → Frame x kv s.kv → Kept x kv (get_params x s)
    unfolding get_params read_params
    get_params-Kept s h = elim (Option-cases (x.kv.get s.kv params_key)) [
      | inl missing ↦ rw missing (on_return _ s h)
      | inr (bz, found) ↦ rw found (Holds-or_panic s h _)
    ]

    pub bank-Kept :
        (s : State x) (e : Error) (f : x.bank.State → Reply x.bank.State)
        → Frame x kv s.kv
        → Kept x kv (bank_call x e f s)
    bank-Kept s e f h = Holds-bank_call x (Frame x kv) s h e f

    pub unchecked-Kept :
        (s : State x) (f : x.bank.State → Reply x.bank.State)
        → Frame x kv s.kv
        → Kept x kv (bank_call_unchecked x f s)
    unchecked-Kept s f h = Holds-bank_call_unchecked x (Frame x kv) s h insufficient_funds f
