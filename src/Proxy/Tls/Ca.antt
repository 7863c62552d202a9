-- ===== src/Proxy/Tls/Ca.antt =====
-- pkg/proxy/tls.go: CAManager. The n-th draw of randomness is numbered, and the next number is part
-- of the state; the file system is the one of the store.
pub mod Cache
pub mod Threads
pub mod Reload
use reelm.Base.{
  ◌>>=◌, ℕ, suc, ◌+◌, ◌*◌, ◌-◌, Bool, true, false, not, ◌&&◌, Option, none, some, List, [], ◌∷◌,
  ◌++◌, Text, codes, ◌==◌, contains, if◌then◌else◌,
}
use reelm.Base.Int.{ℤ, pos, sub_ℕ}
use reelm.Store.Disk.{Disk, mkdir_all, exists, read, write, torn}
use reelm.Store.Paths.{join_path}

pub data Usage : Type 0 where
  cert_sign crl_sign digital_signature key_encipherment : Usage

-- The fields of an x509.Certificate that the code sets; times are nanoseconds.
pub record Template : Type 0 where
  pub serial : ℕ
  pub common_name : Text
  pub organization : List Text
  pub not_before : ℤ
  pub not_after : ℤ
  pub usages : List Usage
  pub server_auth : Bool
  pub is_ca : Bool
  pub dns_names : List Text
  pub ip_addresses : List Text

-- crypto/rsa, crypto/rand, crypto/x509, encoding/pem and net. `create` has the template, the
-- parent's certificate (none is the template itself), the public key's owner and the signer's key.
pub record Crypto : Type 1 where
  pub Key : Type 0
  pub Cert : Type 0
  pub generate_key : ℕ → Option Key
  pub random_serial : ℕ → Option ℕ
  pub create : Template → Option Cert → Key → Key → Option Text
  pub raw : Cert → Text
  pub parse_cert : Text → Option Cert
  pub marshal_key : Key → Text
  pub parse_key : Text → Option Key
  pub pem_encode : Text → Text → Text
  pub pem_decode : Text → Option Text
  -- net.SplitHostPort's host, and whether net.ParseIP finds an address
  pub split_host_port : Text → Option Text
  pub is_ip : Text → Bool

abbrev pub hour : ℕ
hour = 3600000000000

module _ (x : Crypto) where
  -- tls.Certificate
  pub record TlsCertificate : Type 0 where
    pub chain : List Text
    pub private_key : x.Key

  pub record CaManager : Type 0 where
    pub ca_cert : x.Cert
    pub ca_key : x.Key
    pub cert_cache : List (Text × TlsCertificate)

  -- The directory of the certificates, where the configuration names none.
  unfoldable pub ca_dir_or_home : Option Text → Text → Text
  ca_dir_or_home home ca_dir =
      if ca_dir == []
      then elim home [
        | none ↦ codes "./.reelm/ca"
        | some h ↦ join_path (h ∷ codes ".reelm" ∷ codes "ca" ∷ [])
      ]
      else ca_dir

  abbrev pub cert_file : Text → Text
  cert_file dir = join_path (dir ∷ codes "reelm-ca.crt" ∷ [])

  abbrev pub key_file : Text → Text
  key_file dir = join_path (dir ∷ codes "reelm-ca.key" ∷ [])

  abbrev pub ca_template : ℕ → ℕ → Template
  ca_template now serial = record {
    serial = serial;
    common_name = codes "Reelm Local Proxy Root CA";
    organization = codes "Reelm Development CA" ∷ [];
    not_before = sub_ℕ now hour;
    not_after = pos (now + 10 * 365 * 24 * hour);
    usages = Usage.cert_sign ∷ Usage.crl_sign ∷ Usage.digital_signature ∷ [];
    server_auth = false;
    is_ca = true;
    dns_names = [];
    ip_addresses = [];
  }

  -- The two writes of generateCA, with whether both succeeded.
  unfoldable pub write_pair : Text → Text → Text → Text → Disk → Bool × Disk
  write_pair cert_path key_path cert key d = elim (write cert_path cert d) [
    | none ↦ (false, torn cert_path cert d)
    | some e ↦ elim (write key_path key e) [
      | none ↦ (false, torn key_path key e)
      | some f ↦ (true, f)
    ]
  ]

  abbrev pub when_written : Text → x.Key → Bool × Disk → Option (x.Cert × x.Key) × Disk
  when_written der key (false, d) = (none, d)
  when_written der key (true, d) = elim (x.parse_cert der) [
    | none ↦ (none, d)
    | some cert ↦ (some (cert, key), d)
  ]

  -- generateCA; it takes two draws of randomness, from the n-th on.
  unfoldable pub generate_ca : ℕ → ℕ → Text → Text → Disk → Option (x.Cert × x.Key) × Disk
  generate_ca now n cert_path key_path d = elim (x.generate_key n) [
    | none ↦ (none, d)
    | some key ↦ elim (x.random_serial (suc n)) [
      | none ↦ (none, d)
      | some serial ↦ elim (x.create (ca_template now serial) none key key) [
        | none ↦ (none, d)
        | some der ↦ when_written der key (
            write_pair cert_path key_path (x.pem_encode (codes "CERTIFICATE") der)
              (x.pem_encode (codes "RSA PRIVATE KEY") (x.marshal_key key)) d)
      ]
    ]
  ]

  abbrev pub then_parse {ℓ} : {A : Type ℓ} → (Text → Option A) → Option Text → Option A
  then_parse parse none = none
  then_parse parse (some t) = parse t

  abbrev pub both {ℓ κ} : {A : Type ℓ} {B : Type κ} → Option A → Option B → Option (A × B)
  both none b = none
  both (some a) none = none
  both (some a) (some b) = some (a, b)

  -- loadCA; the order in which it meets its errors makes no difference to its callers.
  unfoldable pub load_ca : Text → Text → Disk → Option (x.Cert × x.Key)
  load_ca cert_path key_path d =
      both (then_parse x.parse_cert (then_parse x.pem_decode (read cert_path d)))
        (then_parse x.parse_key (then_parse x.pem_decode (read key_path d)))

  -- The CA that is on the disk, if both files are there and loadCA succeeds.
  unfoldable pub existing_ca : Text → Disk → Option (x.Cert × x.Key)
  existing_ca dir d =
      if exists (cert_file dir) d && exists (key_file dir) d
      then load_ca (cert_file dir) (key_file dir) d
      else none

  abbrev pub manager_of : Option (x.Cert × x.Key) → Option CaManager
  manager_of none = none
  manager_of (some (cert, key)) = some (record { ca_cert = cert; ca_key = key; cert_cache = [] })

  -- NewCAManager, for a directory
  unfoldable pub new_manager_in : ℕ → ℕ → Text → Disk → Option CaManager × Disk
  new_manager_in now n dir d =
      if d.fails (mkdir_all dir) then (none, d) else elim (existing_ca dir d) [
        | none ↦ let r = generate_ca now n (cert_file dir) (key_file dir) d in (manager_of r.0, r.1)
        | some ca ↦ (manager_of (some ca), d)
      ]

  -- NewCAManager
  unfoldable pub new_ca_manager : ℕ → ℕ → Option Text → Text → Disk → Option CaManager × Disk
  new_ca_manager now n home ca_dir d = new_manager_in now n (ca_dir_or_home home ca_dir) d

  -- The host without its port
  unfoldable pub host_of : Text → Text
  host_of host =
      if contains host (codes ":")
      then elim (x.split_host_port host) [ none ↦ host | some h ↦ h ]
      else host

  abbrev pub host_template : ℕ → ℕ → Text → Template
  host_template now serial host = record {
    serial = serial;
    common_name = host;
    organization = [];
    not_before = sub_ℕ now hour;
    not_after = pos (now + 365 * 24 * hour);
    usages = Usage.digital_signature ∷ Usage.key_encipherment ∷ [];
    server_auth = true;
    is_ca = false;
    dns_names = if x.is_ip host then [] else host ∷ [];
    ip_addresses = if x.is_ip host then host ∷ [] else [];
  }

  unfoldable pub cached : Text → List (Text × TlsCertificate) → Option TlsCertificate
  cached host [] = none
  cached host ((h, c) ∷ cs) = if h == host then some c else cached host cs

  -- A new certificate for the host, from the n-th draw on
  unfoldable pub issue : ℕ → ℕ → Text → CaManager → Option TlsCertificate
  issue now n host m = do
    key ← x.generate_key n
    serial ← x.random_serial (suc n)
    der ← x.create (host_template now serial host) (some m.ca_cert) key m.ca_key
    some (record { chain = der ∷ x.raw m.ca_cert ∷ []; private_key = key })

  -- certCache.Store, with the certificate that is returned
  abbrev pub store_certificate :
      Text → CaManager → Option TlsCertificate → Option TlsCertificate × CaManager
  store_certificate host m none = (none, m)
  store_certificate host m (some c) = (some c, record m { cert_cache = (host, c) ∷ m.cert_cache })

  -- GetHostCertificate
  unfoldable pub get_host_certificate : ℕ → ℕ → Text → CaManager → Option TlsCertificate × CaManager
  get_host_certificate now n host m = elim (cached (host_of host) m.cert_cache) [
    | none ↦ store_certificate (host_of host) m (issue now n (host_of host) m)
    | some c ↦ (some c, m)
  ]
