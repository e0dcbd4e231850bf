-- ===== src/Solana/Witnesses/Sample.antt =====
-- A runtime of the Solana program with lamports in a function of the account, and its laws.
use omni_bridge.Prelude.{
  ℕ, Bool, true, false, ◌≡◌, ◌≢◌, refl, ap, subst, ◌+◌, ◌-◌, Option, none, some, [], ◌∷◌, ◌++◌, leb,
  length, if◌then◌else◌, arith,
}
use omni_bridge.Prelude.Equality.{◌==◌, list_eq, nat_eq, beq_ne, beq_self}
use omni_bridge.Types.Codecs.{Bytes}
use omni_bridge.Solana.State.{Pubkey, Text, Borsh, Runtime}
use omni_bridge.Solana.Messages.Unique.{BorshLaws, ∷-injective}
use omni_bridge.Solana.Reserve.{MovesLamports}

abbrev pub Ledger : Type 0
Ledger = Pubkey → ℕ

abbrev bytes : Bytes → Bytes
bytes b = length b ∷ b

abbrev optional : Option Text → Bytes
optional none = 0 ∷ []
optional (some t) = 1 ∷ bytes t

abbrev pub borsh : Borsh
borsh = record {
  u64 = λ n. n ∷ [];
  u128 = λ n. n ∷ [];
  string = bytes;
  pubkey = bytes;
  option_string = optional;
}

abbrev pub moved : Pubkey → Pubkey → ℕ → Ledger → Ledger
moved source target n l k = if source == k then l k - n else if target == k then l k + n else l k

abbrev pub move : Pubkey → Pubkey → ℕ → Ledger → Option Ledger
move source target n l = if leb n (l source) then some (moved source target n l) else none

abbrev pub admin : Pubkey
admin = 1 ∷ []

abbrev pub payer : Pubkey
payer = 2 ∷ []

abbrev pub runtime : Runtime Ledger
runtime = record {
  borsh = borsh;
  minimum_balance = λ n. 1000 + n;
  authority = 3 ∷ [];
  sol_vault = 4 ∷ [];
  config_key = 5 ∷ [];
  fee_collector = 6 ∷ [];
  vault_of = λ k. 7 ∷ k;
  metaplex_address = λ k. 8 ∷ k;
  wrapped_mint = λ k. 9 ∷ k;
  metaplex_id = 10 ∷ [];
  token_2022_id = 11 ∷ [];
  lamports = λ l k. l k;
  transfer = move;
  transfer_checked = λ _ _ _ _ _ _ l. some l;
  mint_to = λ _ _ _ _ l. some l;
  burn = λ _ _ _ _ l. some l;
  create_mint = λ _ _ _ _ l. some l;
  open_token_account = λ _ _ _ l. some l;
  open_vault = λ _ _ l. some l;
  has_vault = λ _ _. true;
  create_used_nonces = λ _ _ _ l. some l;
  create_config = λ _ l. some l;
  create_metadata = λ _ _ l. some l;
  set_metadata = λ _ _ l. some l;
  bridge_fee = λ _. 10;
  sequence = λ _. 1;
  post = λ _ _ _ l. some l;
  post_core = λ _ _ _ _ l. some l;
  keccak = λ b. b;
  sha256 = λ b. b;
  parse_signature = λ _. some false;
  recover = λ _ _ _. some (12 ∷ []);
}

moved-sums :
    (source target : Pubkey) (n : ℕ) (l : Ledger)
    → source ≢ target
    → leb n (l source) ≡ true
    → (l source ≡ moved source target n l source + n)
      × (moved source target n l target ≡ l target + n)
moved-sums source target n l ne h =
    ground (arith, beq_self source, beq_self target, beq_ne source target ne, h)

move-some :
    (b : Bool) (l l' : Ledger) → (if b then some l else none) ≡ some l' → (b ≡ true) × (l ≡ l')
move-some true l l' h = (refl, cc)
move-some false l l' h = cc

pub moves : MovesLamports runtime
moves source target n before after ne h =
    let (enough, same) = move-some (leb n (before source)) (moved source target n before) after h in
    subst (λ l. (before source ≡ l source + n) × (l target ≡ before target + n)) same
      (moved-sums source target n before ne enough)

same_length : (a b r s : Bytes) → length a ≡ length b → a ++ r ≡ b ++ s → (a ≡ b) × (r ≡ s)
same_length [] [] r s h e = (refl, e)
same_length [] (y ∷ b) r s h e = ground arith
same_length (x ∷ a) [] r s h e = ground arith
same_length (x ∷ a) (y ∷ b) r s h e =
    let (head, tail) = ∷-injective e in
    let (rest, after) = same_length a b r s (ground (arith, h)) tail in
    (ground (arith, head, rest), after)

string-SelfDelimiting : (a b r s : Bytes) → bytes a ++ r ≡ bytes b ++ s → (a ≡ b) × (r ≡ s)
string-SelfDelimiting a b r s h = let (size, rest) = ∷-injective h in same_length a b r s size rest

optional-SelfDelimiting :
    (a b : Option Text) (r s : Bytes) → optional a ++ r ≡ optional b ++ s → (a ≡ b) × (r ≡ s)
optional-SelfDelimiting none none r s h = (refl, (∷-injective h).1)
optional-SelfDelimiting none (some t) r s h = ground arith
optional-SelfDelimiting (some t) none r s h = ground arith
optional-SelfDelimiting (some t) (some u) r s h =
    let (same, rest) = string-SelfDelimiting t u r s (∷-injective h).1 in (ap some same, rest)

pub borsh-laws : BorshLaws borsh
borsh-laws = record {
  u64 = λ a b r s _ _ h. ∷-injective h;
  u128 = λ a b r s _ _ h. ∷-injective h;
  string = λ a b r s _ _ h. string-SelfDelimiting a b r s h;
  pubkey = λ a b r s _ _ h. string-SelfDelimiting a b r s h;
  option_string = λ a b r s _ _ h. optional-SelfDelimiting a b r s h;
}
