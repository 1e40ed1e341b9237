-- ===== src/Mir.antt =====
-- The mid-level representation, crates/sarif_codegen/src/lib.rs: a program is a list of functions,
-- a function a list of instructions over numbered values and local slots.
pub mod Inst
use sarif.Base.{ℕ, String, Bool, Option, List}
use Inst.{ValueId, LocalSlotId, Insts}

pub record Param : Type 0 where
  pub name : String
  pub ty : String

pub record MutableLocal : Type 0 where
  pub slot : LocalSlotId
  pub name : String
  pub ty : String
  pub mutable : Bool

pub record Span : Type 0 where
  pub start : ℕ
  pub end : ℕ

pub record Function : Type 0 where
  pub name : String
  pub params : List Param
  pub return_type : Option String
  pub effects : List String
  pub mutable_locals : List MutableLocal
  pub instructions : Insts
  pub result : Option ValueId
  pub span : Span
  pub value_count : ℕ
  pub slot_count : ℕ
