-- ===== src/Store.antt =====
-- internal/db and internal/migrations: the rows of the tables, the database, and a statement.
--
-- A row has the columns that the stores read or write. NULL is `none`; text columns that the
-- queries read through COALESCE(…, '') hold '' for NULL. A time is in nanoseconds.
pub mod Users
pub mod Sessions
pub mod Tokens
pub mod Devices
pub mod Dns
use rdoc_cam_hub.Common.{
  ℕ, ◌+◌, Text, Bool, true, false, Option, none, some, List, if◌then◌else◌, Comparable, ◌≡◌, ◌↔◌,
  arith,
}
use rdoc_cam_hub.Netip.{Addr}

pub data Role : Type 0 where
  admin operator viewer : Role

abbrev pub role_beq : Role → Role → Bool
role_beq admin admin = true
role_beq operator operator = true
role_beq viewer viewer = true
role_beq _ _ = false

pub role_beq_iff : (a b : Role) → (role_beq a b ≡ true) ↔ (a ≡ b)
role_beq_iff a b = ground arith

instance abbrev pub role_eq : Comparable Role
role_eq = record { same = role_beq; same_iff = role_beq_iff }

pub record User : Type 0 where
  pub id : ℕ
  pub email : Text
  pub password_hash : Text
  pub role : Role
  pub created_at : ℕ

pub record Session : Type 0 where
  pub id : Text
  pub user_id : ℕ
  pub created_at : ℕ
  pub expires_at : ℕ
  pub refreshed_at : ℕ
  pub user_agent : Text
  pub ip : Addr

pub record EnrollmentToken : Type 0 where
  pub id : ℕ
  pub hash : Text
  pub created_by : ℕ
  pub created_at : ℕ
  pub expires_at : ℕ
  pub consumed_at : Option ℕ
  pub consumed_by_device_id : Option Text
  pub note : Text

pub data DeviceStatus : Type 0 where
  enrolled online stale offline : DeviceStatus

pub record Device : Type 0 where
  pub id : Text
  pub name : Text
  pub subdomain : Text
  pub device_jwt_kid : Text
  pub capabilities : Text
  pub ports : Text
  pub public_ip : Addr
  pub public_ipv6 : Addr
  pub status : DeviceStatus
  pub stream_health : Text
  pub cam_version : Text
  pub last_seen_at : Option ℕ
  pub enrolled_at : ℕ
  pub updated_at : ℕ

pub data DnsRecordType : Type 0 where
  type_a type_aaaa : DnsRecordType

abbrev pub dns_type_beq : DnsRecordType → DnsRecordType → Bool
dns_type_beq type_a type_a = true
dns_type_beq type_aaaa type_aaaa = true
dns_type_beq _ _ = false

pub dns_type_beq_iff : (a b : DnsRecordType) → (dns_type_beq a b ≡ true) ↔ (a ≡ b)
dns_type_beq_iff a b = ground arith

instance abbrev pub dns_type_eq : Comparable DnsRecordType
dns_type_eq = record { same = dns_type_beq; same_iff = dns_type_beq_iff }

pub record DnsRecord : Type 0 where
  pub id : ℕ
  pub device_id : Text
  pub fqdn : Text
  pub type : DnsRecordType
  pub value : Text
  pub cloudflare_id : Text
  pub created_at : ℕ
  pub updated_at : ℕ

-- The tables, the next number of each BIGSERIAL column, and the number of statements so far.
pub record Database : Type 0 where
  pub users : List User
  pub sessions : List Session
  pub tokens : List EnrollmentToken
  pub devices : List Device
  pub dns_records : List DnsRecord
  pub user_serial : ℕ
  pub token_serial : ℕ
  pub dns_serial : ℕ
  pub statements : ℕ

-- The clocks of the hub and of the database at a request, and which statements the database carries
-- out: `db_up` is false for one that does not reach it and for one whose values it does not take, as
-- text that is not UTF-8 or an address with a zone for an INET column.
pub record Env : Type 0 where
  pub app_now : ℕ
  pub db_now : ℕ
  pub db_up : ℕ → Bool

-- `not_found` is db.ErrNotFound; `failed` is every other error.
pub data DbError : Type 0 where
  not_found failed : DbError

pub data Result {ℓ} (A : Type ℓ) : Type ℓ where
  ok : A → Result A
  err : DbError → Result A

-- A statement that the database does not carry out fails and changes no table.
unfoldable pub query :
    {A : Type 0} → Env → Database → (Database → Result A × Database) → Result A × Database
query env d run =
    let counted : Database = record d { statements = d.statements + 1 } in
    if env.db_up d.statements then run counted else (err failed, counted)

-- The error of a read that found no row.
unfoldable pub row_or_not_found : {A : Type 0} → Option A → Result A
row_or_not_found none = err not_found
row_or_not_found (some a) = ok a

-- A COMMIT that fails leaves the tables as they were before the transaction. A COMMIT that the database
-- carries out but whose reply is lost is not modelled.
unfoldable pub commit : {A : Type 0} → Env → Database → Result A × Database → Result A × Database
commit env before (err e, d) = (err e, record before { statements = d.statements })
commit env before (ok a, d) =
    if env.db_up d.statements
    then (ok a, record d { statements = d.statements + 1 })
    else (err failed, record before { statements = d.statements + 1 })

-- An error after BEGIN rolls the transaction back.
unfoldable pub rolled_back : {A : Type 0} → Database → Database → Result A × Database
rolled_back before d = (err failed, record before { statements = d.statements })
