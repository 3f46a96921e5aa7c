-- ===== src/LocalSend.antt =====
-- internal/localsend/types.go: the data of the LocalSend protocol.
use localsend_nas.Prelude.{Bool, Option, Str, Map, ℤ}

pub record Info : Type 0 where
  pub alias : Str
  pub version : Str
  pub device_model : Str
  pub device_type : Str
  pub fingerprint : Str
  pub port : ℤ
  pub protocol : Str
  pub download : Bool
  pub announce : Bool

pub record FileMetadata : Type 0 where
  pub modified : Option Str
  pub accessed : Option Str

pub record FileDto : Type 0 where
  pub id : Str
  pub file_name : Str
  pub size : ℤ
  pub file_type : Str
  pub sha256 : Option Str
  pub metadata : Option FileMetadata

pub record PrepareRequest : Type 0 where
  pub info : Info
  pub files : Map FileDto

pub record PrepareResponse : Type 0 where
  pub session_id : Str
  pub files : Map Str
