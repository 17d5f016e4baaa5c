-- ===== src/Env.antt =====
-- What the program calls and does not implement, as functions that it is given: the hashes and
-- signatures of crypto/*, go-ethereum's EIP-712 hashing and public-key recovery, the text of a JSON
-- value and of a time, and the Unicode tables.
pub mod Decode
use signet_ps.Base.{ℤ, Bytes, Text, Bool, Option, none, some, List, [], ◌∷◌}
use signet_ps.Std.Strings.{equal_fold, to_lower, quote}

-- A JSON value. A struct is an object with its fields in the order of their declaration; `real` is
-- the text of a number that is no integer.
mutual
  pub data Json : Type 0 where
    null : Json
    text : Text → Json
    num : ℤ → Json
    real : Text → Json
    bool : Bool → Json
    arr : Items → Json
    obj : Fields → Json

  pub data Items : Type 0 where
    nil : Items
    cons : Json → Items → Items

  pub data Fields : Type 0 where
    end : Fields
    field : Text → Json → Fields → Fields

-- A slice; `none` is Go's nil, which encoding/json writes as `null`.
abbrev pub Slice {ℓ} : Type ℓ → Type ℓ
Slice A = Option (List A)

abbrev pub elems {ℓ} : {A : Type ℓ} → Slice A → List A
elems none = []
elems (some xs) = xs

abbrev pub text_items : List Text → Items
text_items [] = nil
text_items (t ∷ ts) = cons (text t) (text_items ts)

abbrev pub texts_json : Slice Text → Json
texts_json none = null
texts_json (some ts) = arr (text_items ts)

-- apitypes.TypedData
mutual
  pub data Value : Type 0 where
    word : Text → Value
    struct : Message → Value

  pub data Message : Type 0 where
    done : Message
    entry : Text → Value → Message → Message

pub record TypedDataDomain : Type 0 where
  pub name : Text
  pub version : Text
  pub chain_id : ℤ
  pub verifying_contract : Text

pub record TypedData : Type 0 where
  pub types : List (Text × List (Text × Text))
  pub primary_type : Text
  pub domain : TypedDataDomain
  pub message : Message

pub record Env : Type 0 where
  -- sha256.Sum256 and crypto.Keccak256
  pub sha256 : Bytes → Bytes
  pub keccak256 : Bytes → Bytes
  -- apitypes.TypedDataAndHash; `none` is an error
  pub typed_data_and_hash : TypedData → Option Bytes
  -- crypto.SigToPub of a digest and a signature, and PubkeyToAddress(…).Hex()
  pub sig_to_pub : Bytes → Bytes → Option Bytes
  pub address_hex : Bytes → Text
  -- ed25519.Sign of a private key and a message; ed25519.Verify of a public key, a message and a
  -- signature
  pub ed25519_sign : Bytes → Bytes → Bytes
  pub ed25519_verify : Bytes → Bytes → Bytes → Bool
  -- the bytes of a JSON value, and the value of bytes that are JSON
  pub marshal : Json → Bytes
  pub unmarshal : Bytes → Option Json
  -- time.Time's JSON text, of nanoseconds since the Unix epoch
  pub format_time : ℤ → Text
  -- ToLower, EqualFold, Quote and TrimSpace of texts that are not ASCII
  pub unicode_lower : Text → Text
  pub unicode_fold : Text → Text → Bool
  pub unicode_quote : Text → Text
  pub unicode_trim : Text → Text
