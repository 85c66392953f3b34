-- ===== src/Plugin/Duplication.antt =====
-- The packet duplication of the command line.
use lueur.Prelude.{◌≡◌, arith}
use lueur.Config.FromCli.{from}
use lueur.Cli.{RunCommandOptions, PacketDuplicationOptions}
use lueur.Plugin.{Http, Injectors, push, push_all, load_injectors}

-- Packet duplication makes no difference to the injectors that are loaded, whatever the command line
-- says of it.
pub duplication_ignored :
    {F : Type 0} (h : Http) (i : Injectors h F) (cli : RunCommandOptions F)
    (other : PacketDuplicationOptions F)
    → load_injectors h i (from cli)
      ≡ load_injectors h i (from (record cli { packet_duplication = other }))
unfolding load_injectors push_all push from
duplication_ignored h i cli other = ground arith
