-- ===== src/Suite/Chain/Permit.antt =====
-- The typed data of permits and delegations: `buildPermitParams` and `buildDelegationWithSigParams` of
-- helpers/contracts-helpers.ts. A number that the source writes as a text is the integer it denotes.
use kza_lending.Base.{List, [], ◌∷◌, String}
use kza_lending.Base.Int.{ℤ}

pub record Signature : Type 0 where
  pub v : ℤ
  pub r : String
  pub s : String

-- The name and the type of a field.
abbrev Field : Type 0
Field = String × String

pub record Domain : Type 0 where
  pub name : String
  pub version : String
  pub chain_id : ℤ
  pub verifying_contract : String

-- A value of a message, as it is given: an address is a text.
pub data Value : Type 0 where
  text : String → Value
  number : ℤ → Value

pub record TypedData : Type 0 where
  pub types : List (String × List Field)
  pub primary_type : String
  pub domain : Domain
  pub message : List (String × Value)

abbrev eip712_domain : String × List Field
eip712_domain = (
  "EIP712Domain",
  ("name", "string")
      ∷ ("version", "string")
      ∷ ("chainId", "uint256")
      ∷ ("verifyingContract", "address")
      ∷ [],
)

unfoldable pub build_permit_params :
    (chain_id : ℤ) (token revision token_name owner spender : String) (nonce deadline value : ℤ)
    → TypedData
build_permit_params chain_id token revision token_name owner spender nonce deadline value = record {
  types =
      eip712_domain
      ∷ (
        "Permit",
        ("owner", "address")
            ∷ ("spender", "address")
            ∷ ("value", "uint256")
            ∷ ("nonce", "uint256")
            ∷ ("deadline", "uint256")
            ∷ [],
      )
      ∷ [];
  primary_type = "Permit";
  domain = record {
    name = token_name;
    version = revision;
    chain_id = chain_id;
    verifying_contract = token;
  };
  message =
      ("owner", text owner)
      ∷ ("spender", text spender)
      ∷ ("value", number value)
      ∷ ("nonce", number nonce)
      ∷ ("deadline", number deadline)
      ∷ [];
}

unfoldable pub build_delegation_with_sig_params :
    (chain_id : ℤ) (token revision token_name delegatee : String) (nonce deadline value : ℤ)
    → TypedData
build_delegation_with_sig_params chain_id token revision token_name delegatee nonce deadline value =
    record {
      types =
          eip712_domain
          ∷ (
            "DelegationWithSig",
            ("delegatee", "address")
                ∷ ("value", "uint256")
                ∷ ("nonce", "uint256")
                ∷ ("deadline", "uint256")
                ∷ [],
          )
          ∷ [];
      primary_type = "DelegationWithSig";
      domain = record {
        name = token_name;
        version = revision;
        chain_id = chain_id;
        verifying_contract = token;
      };
      message =
          ("delegatee", text delegatee)
          ∷ ("value", number value)
          ∷ ("nonce", number nonce)
          ∷ ("deadline", number deadline)
          ∷ [];
    }
