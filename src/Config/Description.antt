-- ===== src/Config/Description.antt =====
-- framework/include/framework/config/description.hpp
use Prim.Native.String.{String}
use strange_io.Common.{ℕ, List}
use strange_io.Common.Int.{ℤ}

pub record Threading : Type 0 where
  pub num_workers : ℤ

pub record LinuxSys : Type 0 where
  pub policy : String
  pub priority : ℤ
  pub affinity : ℤ

pub record System : Type 0 where
  pub threads : Threading
  pub linux_sys : LinuxSys

pub record Controller : Type 0 where
  pub label : String
  pub port : String
  pub led_on : ℕ
  pub led_off : ℕ

pub record ChainLink : Type 0 where
  pub from : String
  pub plug : String
  pub to : String
  pub jack : String

pub record UnitConfig : Type 0 where
  pub type : String
  pub value : String

pub record Binding : Type 0 where
  pub name : String
  pub midi_module : String
  pub code : ℤ

pub record Led : Type 0 where
  pub state : String
  pub device : String
  pub mode : String
  pub code : ℤ
  pub value : ℕ

pub record UnitDesc : Type 0 where
  pub label : String
  pub unit : String
  pub library : String
  pub configs : List UnitConfig
  pub bindings : List Binding
  pub leds : List Led

pub record Setup : Type 0 where
  pub mainlines : List String
  pub daisychains : List ChainLink
  pub units : List UnitDesc

pub record Description : Type 0 where
  pub system : System
  pub controllers : List Controller
  pub setup : Setup
