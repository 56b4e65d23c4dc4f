-- ===== src/Setting.antt =====
-- pkg/setting/setting.go: the settings as the program reads them. Parsing the ini file is go-ini's.
use go_websocket.Prelude.{Bool, false, Option, none, some, List, [], ◌∷◌, ◌&&◌, not, if◌then◌else◌}
use go_websocket.Prelude.Text.{Str, codes}
use go_websocket.Prelude.Dict.{Dict}

-- commonConf
pub record CommonConf : Type 0 where
  pub http_port : Str
  pub rpc_port : Str
  pub cluster : Bool
  pub crypto_key : Str

-- global, without its lock
pub record Global : Type 0 where
  pub local_host : Str
  pub server_list : Dict Str

-- What net.InterfaceAddrs gives for an address: is it an *IPNet, is it a loopback address, has it
-- a 4-byte form, and how it prints.
pub record InterfaceAddr : Type 0 where
  pub is_ip_net : Bool
  pub is_loopback : Bool
  pub has_to4 : Bool
  pub text : Str

-- The first address that is no loopback and has a 4-byte form.
unfoldable pub get_intranet_ip : List InterfaceAddr → Str
get_intranet_ip [] = []
get_intranet_ip (a ∷ addrs) =
    let rest = get_intranet_ip addrs in
    if a.is_ip_net && not a.is_loopback then (if a.has_to4 then a.text else rest) else rest

-- Default
unfoldable pub default_common : CommonConf
default_common = record {
  http_port = codes "6000";
  rpc_port = codes "7000";
  cluster = false;
  crypto_key = codes "Adba723b7fe06819";
}

unfoldable pub default_global : List InterfaceAddr → Global
unfolding get_intranet_ip
default_global addrs = record { local_host = get_intranet_ip addrs; server_list = [] }

-- The settings of the program.
pub record Settings : Type 0 where
  pub common : CommonConf
  pub endpoints : List Str
  pub global : Global

-- What the ini library gives for a file: its sections `common` and `etcd`, each mapped to its record.
pub record IniFile : Type 0 where
  pub common : Option CommonConf
  pub etcd : Option (List Str)

-- Setup, from the file that Load gives; `none` is the end of the program by log.Fatalf.
unfoldable pub setup : Option IniFile → List InterfaceAddr → Option Settings
unfolding get_intranet_ip
setup none addrs = none
setup (some cfg) addrs = elim cfg.common [
  | none ↦ none
  | some common ↦ elim cfg.etcd [
    | none ↦ none
    | some endpoints ↦ some (record {
      common = common;
      endpoints = endpoints;
      global = record { local_host = get_intranet_ip addrs; server_list = [] };
    })
  ]
]
