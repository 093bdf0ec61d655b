-- ===== src/Store/Imports/Growth.antt =====
-- What an import changes: rows with new numbers come behind the addresses, and nothing else changes.
use wallet_scan.Prelude.{
  ℕ, suc, ◌≤◌, ◌≡◌, refl, sym, ◌∙◌, ap, none, some, List, [], ◌∷◌, ◌++◌, arith, nat_eq, append-nil,
  append_assoc,
}
use wallet_scan.Prelude.Texts.{Text, text_eq, text_beq_iff}
use wallet_scan.Domain.{AddressInput}
use wallet_scan.Store.Tables.{AddressRow, Database}
use wallet_scan.Store.Rules.{IsPreorder}
use wallet_scan.Store.Imports.{find_address, row_for}

-- The rows have the numbers from `n` on, in order, and `m` is above them.
abbrev pub AreNew : ℕ → List AddressRow → ℕ → Type 0
AreNew n [] m = n ≤ m
AreNew n (a ∷ rows) m = (n ≤ a.id) × AreNew (suc a.id) rows m

pub AreNew-lower :
    (n k : ℕ) (rows : List AddressRow) (m : ℕ) → k ≤ n → AreNew n rows m → AreNew k rows m
AreNew-lower n k [] m h w = omega (arith, h, w)
AreNew-lower n k (a ∷ rows) m h w = (omega (arith, h, w.0), w.1)

AreNew-append :
    (n : ℕ) (xs : List AddressRow) (m : ℕ) (ys : List AddressRow) (k : ℕ)
    → AreNew n xs m
    → AreNew m ys k
    → AreNew n (xs ++ ys) k
AreNew-append n [] m ys k h w = AreNew-lower m n ys k h w
AreNew-append n (x ∷ xs) m ys k h w = (h.0, AreNew-append (suc x.id) xs m ys k h.1 w)

AreNew-le : (n : ℕ) (rows : List AddressRow) (m : ℕ) → AreNew n rows m → n ≤ m
AreNew-le n [] m h = h
AreNew-le n (a ∷ rows) m h = let k = AreNew-le (suc a.id) rows m h.1 in omega (arith, k, h.0)

pub record Grows (d e : Database) : Type 0 where
  pub new : List AddressRow
  pub addresses : e.addresses ≡ d.addresses ++ new
  pub fresh : AreNew d.sequences.address_id new e.sequences.address_id
  pub runs : e.runs ≡ d.runs
  pub findings : e.findings ≡ d.findings
  pub retries : e.retries ≡ d.retries

pub Grows-IsPreorder : IsPreorder Grows
Grows-IsPreorder = record {
  same = λ d. record {
    new = [];
    addresses = sym (append-nil d.addresses);
    fresh = omega arith;
    runs = refl;
    findings = refl;
    retries = refl;
  };
  chain = λ d e f k l. record {
    new = k.new ++ l.new;
    addresses =
        l.addresses ∙ ap (λ r. r ++ l.new) k.addresses ∙ append_assoc d.addresses k.new l.new;
    fresh = AreNew-append _ k.new _ l.new _ k.fresh l.fresh;
    runs = l.runs ∙ k.runs;
    findings = l.findings ∙ k.findings;
    retries = l.retries ∙ k.retries;
  };
}

-- A rolled-back import has taken numbers, and nothing else.
pub Grows-numbers : (d e : Database) → Grows d e → Grows d (record d { sequences = e.sequences })
Grows-numbers d e k = record {
  new = [];
  addresses = sym (append-nil d.addresses);
  fresh = AreNew-le _ k.new _ k.fresh;
  runs = refl;
  findings = refl;
  retries = refl;
}

find_address-append :
    (t n : Text) (id : ℕ) (rows new : List AddressRow)
    → find_address t n rows ≡ some id
    → find_address t n (rows ++ new) ≡ some id
unfolding find_address
find_address-append t n id [] new h = absurd (cc)
find_address-append t n id (a ∷ rows) new h = ground (arith, find_address-append t n id rows new)

pub find_address-new :
    (n : ℕ) (batch : ℕ) (a : AddressInput) (rows : List AddressRow)
    → find_address a.address_type a.normalized rows ≡ none
    → find_address a.address_type a.normalized (rows ++ row_for n batch a ∷ []) ≡ some n
unfolding find_address
find_address-new n batch a [] h =
    ground
      (arith, text_beq_iff a.address_type a.address_type, text_beq_iff a.normalized a.normalized)
find_address-new n batch a (r ∷ rows) h = ground (arith, find_address-new n batch a rows)

-- The row that the table has for an address.
abbrev pub HasId : AddressInput → ℕ → Database → Type 0
HasId a id d = find_address a.address_type a.normalized d.addresses ≡ some id

pub HasId-Grows :
    (a : AddressInput) (id : ℕ) (d e : Database) → Grows d e → HasId a id d → HasId a id e
HasId-Grows a id d e k h =
    rw k.addresses (find_address-append a.address_type a.normalized id d.addresses k.new h)

abbrev pub HaveIds : List AddressInput → List ℕ → Database → Type 0
HaveIds [] [] d = Unit
HaveIds (a ∷ inputs) (id ∷ ids) d = HasId a id d × HaveIds inputs ids d
HaveIds [] (id ∷ ids) d = ⊥
HaveIds (a ∷ inputs) [] d = ⊥
