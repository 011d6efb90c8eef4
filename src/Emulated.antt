-- ===== src/Emulated.antt =====
-- env_emu.c and updater_emu.c: the stand-ins for the bootloader environment and the update daemon on a
-- host that has neither.
pub mod Reads
use atx_sys.Common.{
  ℕ, ◌+◌, ◌-◌, ◌%◌, ◌^◌, Bool, true, false, not, ltb, ◌==◌, List, [], ◌∷◌, ◌++◌, Option, none, some,
  if◌then◌else◌, Bytes, codes, length, ℤ, pos, negsuc, Result, ok, ◌>>=◌,
}
use atx_sys.Env.{Env, zeroed, snprintf_at, u32}
use atx_sys.Updater.{Updater, UpdaterStatus, truthy}

abbrev pub emu_env : Bytes
emu_env =
    codes "{"
    ++ (codes "\"active\":\"a\","
        ++ (codes "\"boot_img\":\"bootz 0x22000000 - 0x21000000;\","
            ++ (codes
                  "\"bootcmd\":\"run load_env; run load_arg; run read_dtb; run read_img; run boot_img;\","
                ++ (codes
                      "\"bootcmd_nfs\":\"run load_arg_nfs; run load_dtb; run load_img; run read_dtb; run read_img; run boot_img;\","
                    ++ (codes "\"console\":\"console=ttyS0,115200 earlyprintk\","
                        ++ (codes "\"ethaddr\":\"54:10:ec:f1:a1:05\","
                            ++ (codes "\"fdtcontroladdr\":\"27962318\","
                                ++ (codes "\"foo\":\"tom\","
                                    ++ (codes
                                          "\"load_arg\":\"setenv bootargs '$console $mtdparts rootfstype=ubifs $ubi root=ubi0:rootfs'\","
                                        ++ (codes
                                              "\"load_arg_nfs\":\"setenv bootargs '$console root=/dev/nfs ip=$target_ip:$nfs_ip:$nfs_ip:255.255.255.0:atx-demo::off nfsroot=$nfs_ip:$nfs_path,$nfs_opts'\","
                                            ++ (codes
                                                  "\"load_dtb\":\"if test '${active}' = 'a'; then setenv dtb 0x00000000; else setenv dtb 0x0fc00000;fi;\","
                                                ++ (codes
                                                      "\"load_env\":\"run load_dtb; run load_img; run load_ubi;\","
                                                    ++ (codes
                                                          "\"load_img\":\"if test '${active}' = 'a'; then setenv img 0x00080000; else setenv img 0xdfc80000;fi;\","
                                                        ++ (codes
                                                            "\"load_ubi\":\"if test '${active}' = 'a'; then setenv ubi 'ubi.mtd=rootfs_a'; else setenv ubi 'ubi.mtd=rootfs_b'; fi;\","
                                                            ++ (codes
                                                            "\"mtdparts\":\"mtdparts=atmel_nand:512k(dtb_a),6M(kernel_a)ro,257425408(rootfs_a),512k(dtb_b),6M(kernel_b)ro,257425408(rootfs_b)-(data)\","
                                                            ++ (codes "\"nfs_ip\":\"192.168.0.4\","
                                                            ++ (codes
                                                            "\"nfs_opts\":\"tcp,nolock,wsize=4096,rsize=4096,nfsvers=3 rw\","
                                                            ++ (codes
                                                            "\"nfs_path\":\"/home/thomas/Git/altronix/gateway/buildroot-at91/output/images/rootfs\","
                                                            ++ (codes
                                                            "\"read_dtb\":\"nand read 0x21000000 $dtb 0x80000;\","
                                                            ++ (codes
                                                            "\"read_img\":\"nand read 0x22000000 $img 0x600000;\","
                                                            ++ (codes
                                                            "\"target_ip\":\"192.168.0.66\""
                                                            ++ (codes "}"))))))))))))))))))))))

-- The state and the result.
unfoldable pub env_init : Env → Env × ℤ
env_init env = (zeroed, pos 0)

unfoldable pub env_deinit : Env → Env
env_deinit env = zeroed

-- The result, the buffer and the new *b. The room is *b at the call.
unfoldable pub env_read : Bytes → ℕ → Result (ℤ × Bytes × ℕ)
env_read buff sz = do
  buff' ← snprintf_at 0 sz emu_env buff
  ok (if ltb sz (length emu_env) then pos 0 else negsuc 0, buff', length emu_env)

unfoldable pub env_read_val : Env → Bytes → Option Bytes
env_read_val env key = none

unfoldable pub env_write : Env → ℤ
env_write env = negsuc 0

unfoldable pub updater_init : Updater → Updater
updater_init u = record atx_sys.Updater.zeroed { ipc = pos 1 }

-- The length is converted to int for the result.
unfoldable pub updater_write : Updater → ℕ → Updater × ℤ
updater_write u len = (
  record u { len = (u.len + len) % u32 },
  if ltb (len % u32) (2 ^ 31) then pos (len % u32) else negsuc (u32 - 1 - len % u32),
)

unfoldable pub updater_free : Updater → Updater
updater_free u = atx_sys.Updater.zeroed

unfoldable pub updater_active : Updater → Bool
updater_active u = truthy u.ipc

unfoldable pub updater_status : Updater → UpdaterStatus
updater_status u = u.status
