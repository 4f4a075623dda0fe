-- ===== src/Descriptors/Errors.antt =====
-- lib/DefinitionErrors.h.
use usbproxy.Base.{ℕ}

pub data ObjType : Type 0 where
  obj_none obj_device obj_config obj_string obj_interface obj_endpoint : ObjType
  obj_qualifier obj_os_config obj_interfacegroup : ObjType

pub data ErrorKind : Type 0 where
  err_none err_invalid_descriptor err_null_object err_missing_language : ErrorKind
  err_misplaced_object err_misplaced_if_num : ErrorKind

pub record DefinitionError : Type 0 where
  pub error : ErrorKind
  pub error_detail : ℕ
  pub object_type : ObjType
  pub config_id : ℕ
  pub interface_num : ℕ
  pub interface_alternate : ℕ
  pub endpoint_num : ℕ

abbrev pub no_error : DefinitionError
no_error = record {
  error = err_none;
  error_detail = 0;
  object_type = obj_none;
  config_id = 0;
  interface_num = 0;
  interface_alternate = 0;
  endpoint_num = 0;
}

-- The source's test `if (rc.error) {return rc;}`, with what follows it.
abbrev pub unless_error {ℓ} : {A : Type ℓ} → DefinitionError → A → (DefinitionError → A) → A
unless_error rc next stop = elim rc.error [ err_none ↦ next | _ ↦ stop rc ]
