-- ===== src/Ipc/Services.antt =====
-- The service registry of src/ipc.c: a table from names to task numbers.
use microkernel_os.Prelude.{
  ℕ, ◌-◌, ◌^◌, ◌≤◌, ◌≡◌, ◌≢◌, Bool, true, false, not, Option, List, ◌==◌, if◌then◌else◌, Table,
  update, first_from, count_from, length, replicate, option_case,
}
use microkernel_os.CString.{strncpy, set_char, text, IsBytes}
use microkernel_os.CString.Names.{is_named, IsBuffer}

abbrev pub max_services : ℕ
max_services = 16

abbrev pub service_name_len : ℕ
service_name_len = 32

-- `service_entry_t`
pub record Service : Type 0 where
  pub active : Bool
  pub name : List ℕ
  pub pid : ℕ

-- An entry behind the `memset` of `ipc_init`.
abbrev pub zero_service : Service
zero_service = record { active = false; name = replicate service_name_len 0; pid = 0 }

-- The loop that looks for the name, and the one that looks for a free entry.
abbrev pub service_slot : Table Service → List ℕ → Option ℕ
service_slot t name = first_from max_services 0 (λ i. is_named (t i).active (t i).name name)

abbrev pub free_service : Table Service → Option ℕ
free_service t = first_from max_services 0 (λ i. not (t i).active)

-- The entry that a free one becomes.
abbrev pub new_service : Service → List ℕ → ℕ → Service
new_service e name pid = record {
  active = true;
  name = set_char (strncpy e.name name 31) 31 0;
  pid = pid;
}

pub ipc_register_service : List ℕ → ℕ → Table Service → ℕ × Table Service
ipc_register_service name pid t =
    option_case (service_slot t name)
      (option_case (free_service t) (2 ^ 32 - 1, t)
        (λ i. (i, update t i (new_service (t i) name pid))))
      λ i. let e : Service = t i in (i, update t i (record e { pid = pid }))

pub ipc_lookup_service : List ℕ → Table Service → ℕ
ipc_lookup_service name t = option_case (service_slot t name) 0 (λ i. (t i).pid)

pub ipc_port_count : Table Service → ℕ
ipc_port_count t = count_from max_services 0 (λ i. (t i).active)

pub ipc_create_port : List ℕ → ℕ → Table Service → ℕ × Table Service
ipc_create_port name owner t = ipc_register_service name owner t

pub ipc_find_port : List ℕ → Table Service → ℕ
ipc_find_port name t =
    let pid : ℕ = ipc_lookup_service name t in if pid == 0 then 2 ^ 32 - 1 else pid

-- Every name field is a buffer of 32 bytes that ends with a NUL.
abbrev pub IsRegistry : Table Service → Type 0
IsRegistry t = (i : ℕ) → IsBuffer 31 (t i).name

-- A name that fits into an entry.
pub record IsName (name : List ℕ) : Type 0 where
  pub bytes : IsBytes name
  pub short : length (text name) ≤ 31

-- What a successful registration has done.
pub record Registered (name : List ℕ) (pid : ℕ) (t t' : Table Service) : Type 0 where
  pub known : ipc_lookup_service name t' ≡ pid
  pub others :
      (other : List ℕ)
      → IsBytes other
      → text other ≢ text name
      → ipc_lookup_service other t' ≡ ipc_lookup_service other t
  pub registry : IsRegistry t'
