-- ===== src/Server/Info.antt =====
-- The text of `info` (android/termux/server.py). `size / 1024 / 1024` with two decimals is written
-- for a buffer of whole MiB, the only ones that the constructor makes.
use ram_link.Base.{ℕ, ◌/◌, ◌++◌, Bytes, codes, decimal}
use ram_link.Wire.{max_block}
use ram_link.Server.Leases.{sector_size}

unfoldable pub info_text : ℕ → ℕ → ℕ → Bytes
info_text size sectors active =
    codes "RAM-LINK\nversion=3\nprotocol=RML1\ntransport=USB_TETHERING\nbuffer_bytes="
    ++ (decimal size
        ++ (codes "\nbuffer_mib="
            ++ (decimal (size / 1024 / 1024)
                ++ (codes ".00\nsector_size="
                    ++ (decimal sector_size
                        ++ (codes "\nsector_count="
                            ++ (decimal sectors
                                ++ (codes "\nmax_transfer="
                                    ++ (decimal max_block
                                        ++ (codes "\nactive_leases="
                                            ++ (decimal active
                                                ++ codes "\nlease_seconds=120\n")))))))))))
