-- ===== src/Ingest/Osv.antt =====
-- pkg/tools/ingest/vuln.go: OSV records, as far as the program reads them.
use sapper.Base.{Text, List, Option}

pub record Severity : Type 0 where
  pub type : Text
  pub score : Text

pub record Package : Type 0 where
  pub ecosystem : Text
  pub name : Text
  pub purl : Text

pub record Event : Type 0 where
  pub introduced : Text
  pub fixed : Text
  pub last_affected : Text
  pub limit : Text

pub record Range : Type 0 where
  pub type : Text
  pub repo : Text
  pub events : List Event

pub record Affected : Type 0 where
  pub pkg : Package
  pub ranges : List Range
  pub versions : List Text

-- Of `DatabaseSpecific` only the entry "severity" is read, if it is a string.
pub record Vulnerability : Type 0 where
  pub id : Text
  pub aliases : List Text
  pub summary : Text
  pub severity : List Severity
  pub affected : List Affected
  pub database_severity : Option Text

-- helpers.go: `PackageInfo`.
pub record PackageInfo : Type 0 where
  pub name : Text
  pub version : Text
  pub ecosystem : Text
