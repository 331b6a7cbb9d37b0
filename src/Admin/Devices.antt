-- ===== src/Admin/Devices.antt =====
-- The lists of devices and of sites of backend/admin/src/admin/firestore_repo.py. The documents
-- come in the order in which Firestore streams them.
use Prim.Native.Nat.{Ordering}
use Prim.Native.String.{compare}
use drone_audio_sensor.Common.{
  ℕ, Bool, not, List, [], ◌∷◌, Option, none, some, String, if◌then◌else◌, str_eq, get_or,
}
use drone_audio_sensor.Common.Int.{ℤ}
use drone_audio_sensor.Lifecycle.{State}
use drone_audio_sensor.Gateway.Store.{Device, GeoPoint, Table}
use drone_audio_sensor.Admin.{or_text, current_state, differs}

-- A device's document with the site that only the admin's side reads.
pub record SiteDoc (F : Type 0) : Type 0 where
  pub device : Device F
  pub site : Option String

-- A snapshot of the stream: its id and its document.
abbrev pub Snap : Type 0 → Type 0
Snap F = String × SiteDoc F

-- `DeviceRow`, without the fingerprint of the key.
pub record DeviceRow (F : Type 0) : Type 0 where
  pub device_id : String
  pub state : State
  pub site : String
  pub site_label : String
  pub app_version : String
  pub device_model : String
  pub os_version : String
  pub first_seen_ms : Option ℕ
  pub last_seen_ms : Option ℕ
  pub last_handshake_ms : Option ℕ
  pub last_disconnect_ms : Option ℕ
  pub wipe_requested_at_ms : Option ℕ
  pub wipe_sent_at_ms : Option ℕ
  pub last_wipe_session_id : Option String
  pub has_public_key : Bool
  pub location_lat : Option F
  pub location_lon : Option F
  pub location_accuracy_m : Option F
  pub location_timestamp_ms : Option ℤ
  pub frame_duration_ms : Option ℤ
  pub audio_codec : String

abbrev lat_of : {F : Type 0} → Option (GeoPoint F) → Option F
lat_of none = none
lat_of (some p) = some p.latitude

abbrev lon_of : {F : Type 0} → Option (GeoPoint F) → Option F
lon_of none = none
lon_of (some p) = some p.longitude

-- A set of texts is the ascending list of its members: `seen.add`, and `sorted(seen)`.
abbrev pub placed : Ordering → String → String → List String → List String → List String
placed Ordering.lt s x xs rest = s ∷ x ∷ xs
placed Ordering.eq s x xs rest = x ∷ xs
placed Ordering.gt s x xs rest = x ∷ rest

abbrev pub add_site : String → List String → List String
add_site s [] = s ∷ []
add_site s (x ∷ xs) = placed (compare s x) s x xs (add_site s xs)

abbrev pub add_named : Option String → List String → List String
add_named none seen = seen
add_named (some s) seen = if str_eq s "" then seen else add_site s seen

module _ {F : Type 0} where
  -- `_to_device_row`.
  unfoldable pub to_device_row : String → SiteDoc F → DeviceRow F
  to_device_row device_id d = record {
    device_id = device_id;
    state = current_state d.device;
    site = get_or d.site "";
    site_label = get_or d.device.assigned_site_label "";
    app_version = get_or d.device.app_version "";
    device_model = get_or d.device.device_model "";
    os_version = get_or d.device.os_version "";
    first_seen_ms = d.device.first_seen_ms;
    last_seen_ms = d.device.last_seen_ms;
    last_handshake_ms = d.device.last_handshake_ms;
    last_disconnect_ms = d.device.last_disconnect_ms;
    wipe_requested_at_ms = d.device.wipe_requested_at_ms;
    wipe_sent_at_ms = d.device.wipe_sent_at_ms;
    last_wipe_session_id = or_text d.device.last_wipe_session_id none;
    has_public_key = not (str_eq (get_or d.device.public_key_pem "") "");
    location_lat = lat_of d.device.current_location;
    location_lon = lon_of d.device.current_location;
    location_accuracy_m = d.device.location_accuracy_m;
    location_timestamp_ms = d.device.location_timestamp_ms;
    frame_duration_ms = d.device.frame_duration_ms;
    audio_codec = get_or (or_text d.device.audio_codec none) "pcm16";
  }

  -- A stable sort by the id, in the order of code points.
  abbrev pub insert_row : DeviceRow F → List (DeviceRow F) → List (DeviceRow F)
  insert_row r [] = r ∷ []
  insert_row r (x ∷ xs) =
      let rest = insert_row r xs in
      elim (compare r.device_id x.device_id) [ Ordering.gt ↦ x ∷ rest | _ ↦ r ∷ x ∷ xs ]

  -- `list_devices`.
  unfoldable pub list_devices : Option String → List (Snap F) → List (DeviceRow F)
  list_devices site [] = []
  list_devices site ((id, d) ∷ rest) =
      let rows = list_devices site rest in
      let row = to_device_row id d in if differs site row.site then rows else insert_row row rows

  -- `get_device`.
  abbrev pub row_of : String → Option (SiteDoc F) → Option (DeviceRow F)
  row_of device_id none = none
  row_of device_id (some d) = some (to_device_row device_id d)

  unfoldable pub get_device : Table (SiteDoc F) → String → Option (DeviceRow F)
  get_device m device_id = row_of device_id (m device_id)

  -- `list_sites`.
  unfoldable pub list_sites : List (Snap F) → List String
  list_sites [] = []
  list_sites ((id, d) ∷ rest) = add_named d.site (list_sites rest)
