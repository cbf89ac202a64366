-- ===== src/SimpleOpStore/Proto.antt =====
-- The messages of lib/src/protos/op_store.proto. A field that is a message is present or not, and
-- reading an absent one gives the message whose fields are all at their defaults; a `map` field is
-- an association list.
use jj.Prelude.{ℕ, Option, none, some, List, []}
use jj.Prelude.Int.{ℤ, pos}
use jj.Prelude.Maps.{Map}
use jj.RepoPath.{Text}

abbrev pub Bytes : Type 0
Bytes = List ℕ

pub record RefConflict : Type 0 where
  pub removes : List Bytes
  pub adds : List Bytes

pub data RefValue : Type 0 where
  commit_id : Bytes → RefValue
  conflict : RefConflict → RefValue

pub record RefTarget : Type 0 where
  pub value : Option RefValue

pub record RemoteBranch : Type 0 where
  pub remote_name : Text
  pub target : Option RefTarget

pub record Branch : Type 0 where
  pub name : Text
  pub local_target : Option RefTarget
  pub remote_branches : List RemoteBranch

pub record GitRef : Type 0 where
  pub name : Text
  pub commit_id : Bytes
  pub target : Option RefTarget

pub record Tag : Type 0 where
  pub name : Text
  pub target : Option RefTarget

pub record View : Type 0 where
  pub head_ids : List Bytes
  pub public_head_ids : List Bytes
  pub wc_commit_id : Bytes
  pub wc_commit_ids : Map Text Bytes
  pub branches : List Branch
  pub tags : List Tag
  pub git_refs : List GitRef
  pub git_head : Bytes

pub record Timestamp : Type 0 where
  pub millis_since_epoch : ℤ
  pub tz_offset : ℤ

pub record OperationMetadata : Type 0 where
  pub start_time : Option Timestamp
  pub end_time : Option Timestamp
  pub description : Text
  pub hostname : Text
  pub username : Text
  pub tags : Map Text Text

pub record Operation : Type 0 where
  pub view_id : Bytes
  pub parents : List Bytes
  pub metadata : Option OperationMetadata

-- What an absent field reads as.
abbrev pub default_target : RefTarget
default_target = record { value = none }

abbrev pub default_timestamp : Timestamp
default_timestamp = record { millis_since_epoch = pos 0; tz_offset = pos 0 }

abbrev pub default_metadata : OperationMetadata
default_metadata = record {
  start_time = none;
  end_time = none;
  description = [];
  hostname = [];
  username = [];
  tags = [];
}

abbrev pub or_default {ℓ} : {A : Type ℓ} → A → Option A → A
or_default d none = d
or_default d (some a) = a
