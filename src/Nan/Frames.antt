-- ===== src/Nan/Frames.antt =====
-- The frames of nan.c and beacons.c: the constant parts, and the bytes that reach the air.
use dmesh_l.Base.{ℕ, ◌+◌, ◌/◌, ◌%◌, List, [], ◌∷◌, ◌++◌, u8, ◌>>>◌, length, overwrite}

abbrev pub frame_dst : ℕ
frame_dst = 4

abbrev pub frame_src : ℕ
frame_src = 10

abbrev pub frame_ssid : ℕ
frame_ssid = 16

abbrev pub frame_data : ℕ
frame_data = 24

abbrev pub nan_action_start : ℕ
nan_action_start = 30

abbrev pub nan_id : ℕ
nan_id = 1

-- `nanHeader`
abbrev pub nan_header : List ℕ
nan_header =
    0xd0 ∷ 0x00 ∷ 0x00 ∷ 0x00 ∷ 0xff ∷ 0xff ∷ 0xff ∷ 0xff ∷ 0xff ∷ 0xff ∷ 0x00 ∷ 0x00 ∷ 0x00 ∷ 0x00
    ∷ 0x00 ∷ 0x00 ∷ 0x50 ∷ 0x6f ∷ 0x9a ∷ 0x01 ∷ 0x05 ∷ 0x01 ∷ 0 ∷ 0 ∷ 0x04 ∷ 0x09 ∷ 0x50 ∷ 0x6f
    ∷ 0x9a ∷ 0x13 ∷ []

-- `nanDeviceCapabilities`
abbrev pub device_capabilities : List ℕ
device_capabilities = 0x0f ∷ 0x09 ∷ 0x00 ∷ 0 ∷ 1 ∷ 0 ∷ 0x04 ∷ 1 ∷ 0 ∷ 0 ∷ 0x14 ∷ 0 ∷ []

-- `nanAvailability`
abbrev pub availability : List ℕ
availability =
    0x12 ∷ 0x1b ∷ 0x00 ∷ 0x0b ∷ 0x01 ∷ 0x00 ∷ 0x16 ∷ 0x00 ∷ 0x1a ∷ 0x10 ∷ 0x18 ∷ 0x00 ∷ 0x04 ∷ 0xfe
    ∷ 0xff ∷ 0xff ∷ 0x3f ∷ 0x31 ∷ 0x51 ∷ 0xff ∷ 0x07 ∷ 0x00 ∷ 0x80 ∷ 0x20 ∷ 0x00 ∷ 0x0f ∷ 0x80
    ∷ 0x01 ∷ 0x00 ∷ 0x0f ∷ []

-- `nanServiceExtension`
abbrev pub service_extension : List ℕ
service_extension = 0x0e ∷ 0x04 ∷ 0x00 ∷ nan_id ∷ 0x00 ∷ 0x02 ∷ 0x02 ∷ []

-- `SVC_ID`
abbrev pub svc_id : List ℕ
svc_id = 0x75 ∷ 0x94 ∷ 0x31 ∷ 0x93 ∷ 0xea ∷ 0xc9 ∷ []

-- `nanServiceDescriptor`
abbrev pub service_descriptor : List ℕ
service_descriptor =
    0x03 ∷ 0x1a ∷ 0x00 ∷ 0x75 ∷ 0x94 ∷ 0x31 ∷ 0x93 ∷ 0xea ∷ 0xc9 ∷ nan_id ∷ 0 ∷ 0x10 ∷ 0x10 ∷ 0x31
    ∷ 0x32 ∷ 0x33 ∷ 0x34 ∷ 0x35 ∷ 0x36 ∷ 0x37 ∷ 0x38 ∷ 0x30 ∷ 0x30 ∷ 0x30 ∷ 0x30 ∷ 0x57 ∷ 0x78
    ∷ 0x68 ∷ 0x37 ∷ []

-- The frame of `nanSendPublish`, from the addresses of the driver.
unfoldable pub publish_frame : (mymac nan_net : List ℕ) → List ℕ
publish_frame mymac nan_net =
    let head = overwrite (overwrite nan_header 10 mymac) (frame_ssid + 4) nan_net in
    head ++ device_capabilities ++ availability ++ service_extension ++ service_descriptor

-- The frame of `nanSendNow`, for a payload that has been cut to 255 bytes.
unfoldable pub follow_up_frame :
    (dst_mac mymac nan_net : List ℕ) (instance_id : ℕ) → List ℕ → List ℕ
follow_up_frame dst_mac mymac nan_net instance_id payload =
    let to = overwrite nan_header frame_dst dst_mac in
    let head = overwrite (overwrite to frame_src mymac) (frame_ssid + 4) nan_net in
    let sz = length payload + 6 + 4 in
    head
    ++ (0x03 ∷ sz % 256 ∷ u8 (sz / 256) ∷ [])
    ++ svc_id
    ++ (nan_id ∷ instance_id ∷ 0x12 ∷ u8 (length payload) ∷ [])
    ++ payload

-- `head` of `nanSendSync`
abbrev pub sync_head : List ℕ
sync_head =
    0x80 ∷ 0x00 ∷ 0x00 ∷ 0x00 ∷ 0xff ∷ 0xff ∷ 0xff ∷ 0xff ∷ 0xff ∷ 0xff ∷ 0x00 ∷ 0x00 ∷ 0x00 ∷ 0x00
    ∷ 0x00 ∷ 0x00 ∷ 0x50 ∷ 0x6f ∷ 0x9a ∷ 0x01 ∷ 0xd9 ∷ 0x49 ∷ 0 ∷ 0 ∷ 0xcc ∷ 0 ∷ 0xc0 ∷ 0xb3 ∷ 1 ∷ 2
    ∷ 3 ∷ 4 ∷ 0 ∷ 2 ∷ 0x20 ∷ 0x04 ∷ 0xdd ∷ 34 ∷ 0x50 ∷ 0x6f ∷ 0x9a ∷ 0x13 ∷ 0 ∷ 2 ∷ 0 ∷ 129 ∷ 0 ∷ 1
    ∷ 0x0d ∷ 0 ∷ 2 ∷ 0xeb ∷ 0x23 ∷ 0x0a ∷ 0xc9 ∷ 0x31 ∷ 0x74 ∷ 129 ∷ 0 ∷ 0 ∷ 0 ∷ 0 ∷ 0 ∷ 2 ∷ 6 ∷ 0
    ∷ 0x75 ∷ 0x94 ∷ 0x31 ∷ 0x93 ∷ 0xea ∷ 0xc9 ∷ []

-- The frame of `nanSendSync`.
unfoldable pub sync_frame : (mymac nan_net : List ℕ) (pref random interval : ℕ) → List ℕ
sync_frame mymac nan_net pref random interval =
    let addressed = overwrite (overwrite sync_head frame_src mymac) 50 mymac in
    let in_net = overwrite addressed (frame_ssid + 4) nan_net in
    let timed = overwrite in_net 32 (u8 interval ∷ u8 (interval >>> 8) ∷ []) in
    overwrite (overwrite timed 45 (pref ∷ random ∷ [])) 56 (random ∷ pref ∷ [])
