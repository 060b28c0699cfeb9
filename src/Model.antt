-- ===== src/Model.antt =====
-- src/model.hpp: the records that the components pass to one another. A hash of 20 bytes is a byte
-- string, and an `int64_t` is an integer.
use aurhub.Base.{ℕ, List}
use aurhub.Bytes.{Bytes}

-- `negsuc n` is -(n + 1).
pub data ℤ : Type 0 where
  pos : ℕ → ℤ
  negsuc : ℕ → ℤ

pub record Package : Type 0 where
  pub name : Bytes
  pub base : Bytes
  pub version : Bytes
  pub description : Bytes
  pub url : Bytes
  pub license : List Bytes
  pub depends : List Bytes
  pub make_depends : List Bytes
  pub check_depends : List Bytes
  pub opt_depends : List Bytes
  pub provides : List Bytes
  pub conflicts : List Bytes
  pub replaces : List Bytes
  pub groups : List Bytes
  pub keywords : List Bytes
  pub updated_at : ℤ

pub record BranchInfo : Type 0 where
  pub name : Bytes
  pub oid : Bytes
  pub updated_at : ℤ

pub record CompiledPackage : Type 0 where
  pub name : Bytes
  pub search : Bytes
  pub json : Bytes
  pub branch_index : ℕ
  pub updated_at : ℤ

pub record CompiledPackageView : Type 0 where
  pub name : Bytes
  pub search : Bytes
  pub json : Bytes
  pub branch_index : ℕ
  pub updated_at : ℤ

unfoldable pub package_view : CompiledPackage → CompiledPackageView
package_view p = record {
  name = p.name;
  search = p.search;
  json = p.json;
  branch_index = p.branch_index;
  updated_at = p.updated_at;
}
