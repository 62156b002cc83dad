-- ===== src/Main/Output/Lines.antt =====
-- What can be read off the printed lines: the errors, the addresses of the hosts, and the totals of
-- the summaries.
use mathlib.Core.List.{flat_map}
use netscan.Base.{
  Bool, Bytes, List, Option, [], ap, ap₂, false, if◌then◌else◌, length, map, refl, true, ℕ, ◌++◌,
  ◌∙◌, ◌∷◌, ◌≡◌,
}
use netscan.Arp.{ArpEntry}
use netscan.Main.Output.{
  Line, invalid_cidr, no_interface_found, address, no_target, unknown_mode, arp_banner,
  no_arp_entries, arp_heading, arp_row, arp_total, ping_banner, ping_host, ping_complete,
  tcp_banner, tcp_host, tcp_complete, arp_row_of, print_arp_table,
}

-- The lines that go to the standard error.
abbrev pub is_error : Line → Bool
is_error (invalid_cidr text) = true
is_error no_interface_found = true
is_error no_target = true
is_error (unknown_mode text) = true
is_error (address text) = false
is_error (arp_banner dns) = false
is_error no_arp_entries = false
is_error arp_heading = false
is_error (arp_row ip mac_address iface hostname) = false
is_error (arp_total n) = false
is_error (ping_banner n) = false
is_error (ping_host r) = false
is_error (ping_complete r) = false
is_error (tcp_banner n port) = false
is_error (tcp_host r) = false
is_error (tcp_complete port n) = false

abbrev pub errors_of : Line → List Line
errors_of line = if is_error line then line ∷ [] else []

abbrev pub hosts_of : Line → List ℕ
hosts_of (ping_host r) = r.ip ∷ []
hosts_of (tcp_host r) = r.ip ∷ []
hosts_of (invalid_cidr text) = []
hosts_of no_interface_found = []
hosts_of no_target = []
hosts_of (unknown_mode text) = []
hosts_of (address text) = []
hosts_of (arp_banner dns) = []
hosts_of no_arp_entries = []
hosts_of arp_heading = []
hosts_of (arp_row ip mac_address iface hostname) = []
hosts_of (arp_total n) = []
hosts_of (ping_banner n) = []
hosts_of (ping_complete r) = []
hosts_of (tcp_banner n port) = []
hosts_of (tcp_complete port n) = []

abbrev pub totals_of : Line → List ℕ
totals_of (ping_complete r) = length r.hosts ∷ []
totals_of (tcp_complete port n) = n ∷ []
totals_of (invalid_cidr text) = []
totals_of no_interface_found = []
totals_of no_target = []
totals_of (unknown_mode text) = []
totals_of (address text) = []
totals_of (arp_banner dns) = []
totals_of no_arp_entries = []
totals_of arp_heading = []
totals_of (arp_row ip mac_address iface hostname) = []
totals_of (arp_total n) = []
totals_of (ping_banner n) = []
totals_of (ping_host r) = []
totals_of (tcp_banner n port) = []
totals_of (tcp_host r) = []

abbrev pub errors : List Line → List Line
errors = flat_map errors_of

abbrev pub hosts : List Line → List ℕ
hosts = flat_map hosts_of

abbrev pub totals : List Line → List ℕ
totals = flat_map totals_of

module _ {ℓ κ} {A : Type ℓ} {B : Type κ} (g : A → Line) where
  -- Lines that say nothing of what is asked.
  pub flat_map-silent :
      (f : Line → List B) (xs : List A) (rest : List Line)
      → ((a : A) → f (g a) ≡ [])
      → flat_map f (map g xs ++ rest) ≡ flat_map f rest
  unfolding flat_map
  flat_map-silent f [] rest h = refl
  flat_map-silent f (a ∷ es) rest h =
      ap (λ (x : List B). x ++ flat_map f (map g es ++ rest)) (h a) ∙ flat_map-silent f es rest h

  -- Lines that each say one thing.
  pub flat_map-said :
      (f : Line → List B) (said : A → B) (xs : List A) (rest : List Line)
      → ((a : A) → f (g a) ≡ said a ∷ [])
      → flat_map f (map g xs ++ rest) ≡ map said xs ++ flat_map f rest
  unfolding flat_map
  flat_map-said f said [] rest h = refl
  flat_map-said f said (a ∷ es) rest h =
      ap₂ (λ (x y : List B). x ++ y) (h a) (flat_map-said f said es rest h)

module _ (inet_ntop : Bytes → Bytes) (getnameinfo : ℕ → Option Bytes) (resolve_dns : Bool) where
  pub print_arp_table-silent {ℓ} :
      {B : Type ℓ} (f : Line → List B) (entries : List ArpEntry)
      → f no_arp_entries ≡ []
      → f arp_heading ≡ []
      → ((ip mac_address iface hostname : Bytes) → f (arp_row ip mac_address iface hostname) ≡ [])
      → ((n : ℕ) → f (arp_total n) ≡ [])
      → flat_map f (print_arp_table inet_ntop getnameinfo resolve_dns entries) ≡ []
  unfolding print_arp_table flat_map arp_row_of
  print_arp_table-silent {B = B} f [] e h r t = ap (λ (x : List B). x ++ []) e
  print_arp_table-silent {B = B} f (a ∷ es) e h r t =
      ap₂ (λ (x y : List B). x ++ y) h
        (flat_map-silent (arp_row_of inet_ntop getnameinfo resolve_dns) f (a ∷ es)
            (arp_total (length (a ∷ es)) ∷ []) (λ entry. r _ _ _ _)
          ∙ ap (λ (x : List B). x ++ []) (t (length (a ∷ es))))
